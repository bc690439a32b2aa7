-- ===== src/Args/Flags.antt =====
-- internal/args/args.go: a set of flags. Go stores a flag's value through a pointer that the
-- caller registers; here the flag holds it.
pub mod Unique
use ssh_sign.Prelude.{
  ℕ, suc, ◌+◌, Bool, true, false, not, ◌&&◌, ◌||◌, List, [], ◌∷◌, ◌++◌, Option, none, some, ◌==◌,
  ltb, if◌then◌else◌, is_nil, is_some, length, any, all, find,
}
use ssh_sign.Text.Bytes.{Bytes, codes, bytes_eq, has_prefix, mem_byte}
use ssh_sign.Text.Utf8.{Glyph, glyphs}

pub data Kind : Type 0 where
  string bool counter : Kind

abbrev pub is_string : Kind → Bool
is_string string = true
is_string bool = false
is_string counter = false

pub record Flag : Type 0 where
  pub long : Bytes
  pub short : Bytes
  pub usage : Bytes
  pub def : Bytes
  pub kind : Kind
  pub str : Bytes
  pub boolean : Bool
  pub count : ℕ
  pub changed : Bool

-- A subcommand's name and description.
pub record Command : Type 0 where
  pub name : Bytes
  pub description : Bytes

pub record FlagSet : Type 0 where
  pub name : Bytes
  pub flags : List Flag
  pub required : List Bytes
  pub deny_empty : List Bytes
  pub exclusive : List (List Bytes)
  pub commands : List Command

abbrev pub has_long : Bytes → Flag → Bool
has_long name f = bytes_eq f.long name

abbrev pub has_short : Bytes → Flag → Bool
has_short short f = bytes_eq f.short short

-- `lookup` and `lookupShort`
unfoldable pub lookup : Bytes → List Flag → Option Flag
lookup name = find (has_long name)

unfoldable pub lookup_short : Bytes → List Flag → Option Flag
lookup_short short = find (has_short short)

-- `f.set(value)` on a flag
unfoldable pub set_value : Kind → Bytes → Flag → Flag
set_value string value f = record f { str = value; changed = true }
set_value bool value f = record f { boolean = true; changed = true }
set_value counter value f = record f { count = f.count + 1; changed = true }

-- `f.set(value)` through the pointer that a lookup returns: the first flag that passes the test.
unfoldable pub set_first : (Flag → Bool) → Bytes → List Flag → List Flag
unfolding set_value
set_first test value [] = []
set_first test value (f ∷ fs) =
    if test f then set_value f.kind value f ∷ fs else f ∷ set_first test value fs

-- A panic of `add`: a name that no command line can give, or one that is taken.
abbrev pub bad_name : Flag → Bool
bad_name f = is_nil f.long || has_prefix f.long (codes "-") || mem_byte b'=' f.long

abbrev pub bad_short : Flag → Bool
bad_short f =
    not (is_nil f.short) && (not (length (glyphs f.short) == 1) || bytes_eq f.short (codes "-"))

abbrev pub clashes : Flag → Flag → Bool
clashes f other =
    bytes_eq other.long f.long || (not (is_nil f.short) && bytes_eq other.short f.short)

-- `none` is a panic.
unfoldable pub add : Flag → FlagSet → Option FlagSet
add f s =
    if bad_name f || bad_short f || any (clashes f) s.flags
    then none
    else some (record s { flags = s.flags ++ f ∷ [] })

abbrev new_flag : Kind → Bytes → Bytes → Bytes → Bytes → Flag
new_flag kind long short def usage = record {
  long = long;
  short = short;
  usage = usage;
  def = def;
  kind = kind;
  str = def;
  boolean = false;
  count = 0;
  changed = false;
}

unfoldable pub add_string : Bytes → Bytes → Bytes → Bytes → FlagSet → Option FlagSet
unfolding add
add_string long short def usage = add (new_flag string long short def usage)

unfoldable pub add_bool : Bytes → Bytes → Bytes → FlagSet → Option FlagSet
unfolding add
add_bool long short usage = add (new_flag bool long short [] usage)

unfoldable pub add_count : Bytes → Bytes → Bytes → FlagSet → Option FlagSet
unfolding add
add_count long short usage = add (new_flag counter long short [] usage)

-- `NewSet`, with -h and --help registered
unfoldable pub new_set : Bytes → Option FlagSet
unfolding add_bool
new_set name =
    add_bool (codes "help") (codes "h") (codes "display this help text and exit") (record {
      name = name;
      flags = [];
      required = [];
      deny_empty = [];
      exclusive = [];
      commands = [];
    })

-- `Required`, `DenyEmpty`, `MutuallyExclusive` and `Command`
unfoldable pub require : Bytes → FlagSet → Option FlagSet
unfolding lookup
require name s =
    if is_some (lookup name s.flags)
    then some (record s { required = s.required ++ name ∷ [] })
    else none

unfoldable pub deny_empty : Bytes → FlagSet → Option FlagSet
unfolding lookup
deny_empty name s = elim (lookup name s.flags) [
  | none ↦ none
  | some f ↦
      if is_string f.kind then some (record s { deny_empty = s.deny_empty ++ name ∷ [] }) else none
]

unfoldable pub mutually_exclusive : List Bytes → FlagSet → Option FlagSet
unfolding lookup
mutually_exclusive names s =
    if ltb (length names) 2 || not (all (λ name. is_some (lookup name s.flags)) names)
    then none
    else some (record s { exclusive = s.exclusive ++ names ∷ [] })

abbrev pub add_command : Bytes → Bytes → FlagSet → FlagSet
add_command name description s = record s {
  commands = s.commands ++ (record { name = name; description = description } ∷ []);
}

-- ===== src/Args/Parse.antt =====
-- internal/args/args.go: `parseFlags`, `parseLong` and `parseShort`.
pub mod Forms
pub mod Keeps
use ssh_sign.Prelude.{
  ℕ, zero, suc, Bool, true, false, not, ◌&&◌, ◌||◌, List, [], ◌∷◌, ◌++◌, Option, none, some,
  if◌then◌else◌, is_nil, Result, ok, err, ◌>>=◌,
}
use ssh_sign.Text.Bytes.{Bytes, codes, bytes_eq, has_prefix, cut}
use ssh_sign.Text.Utf8.{Glyph, glyphs, raw_string}
use ssh_sign.Args.Flags.{Flag, is_string, has_long, has_short, lookup, lookup_short, set_first}

pub data ArgError : Type 0 where
  help_requested usage : ArgError
  no_positional missing_command : ArgError
  invalid_command : Bytes → ArgError
  bad_syntax : Bytes → ArgError
  unknown_flag : Bytes → ArgError
  takes_no_value : Bytes → ArgError
  needs_argument : Bytes → ArgError
  unknown_shorthand : Bytes → Bytes → ArgError
  missing_required : List Bytes → ArgError
  exclusive_flags : Bytes → Bytes → ArgError
  empty_value : List Bytes → ArgError

-- The flags after an argument, and whether the next argument was its value.
abbrev pub Step : Type 0
Step = Result ArgError (List Flag × Bool)

-- The name and the value, if there is one, of `--name=value`.
abbrev pub long_parts : Bytes → Bytes × Option Bytes
long_parts body = elim (cut b'=' body) [
  | none ↦ (body, none)
  | some (name, value) ↦ (name, some value)
]

-- A string flag takes its value from the argument or from the next one.
unfoldable pub long_value : List Flag → Bytes → Option Bytes → List Bytes → Step
unfolding set_first
long_value fs name (some value) next = ok (set_first (has_long name) value fs, false)
long_value fs name none [] = err (needs_argument name)
long_value fs name none (value ∷ rest) = ok (set_first (has_long name) value fs, true)

unfoldable pub long_switch : List Flag → Bytes → Option Bytes → Step
unfolding set_first
long_switch fs name (some value) = err (takes_no_value name)
long_switch fs name none = ok (set_first (has_long name) [] fs, false)

unfoldable pub long_flag : List Flag → Bytes → Bytes → Option Bytes → List Bytes → Step
unfolding lookup long_value long_switch
long_flag fs arg name value next =
    if is_nil name || has_prefix name (codes "-")
    then err (bad_syntax arg)
    else elim (lookup name fs) [
      | none ↦ err (unknown_flag name)
      | some f ↦
          if is_string f.kind then long_value fs name value next else long_switch fs name value
    ]

-- `body` is the argument without its two dashes.
unfoldable pub parse_long : List Flag → Bytes → Bytes → List Bytes → Step
unfolding long_flag
parse_long fs arg body next =
    let (name, value) = long_parts body in long_flag fs arg name value next

-- `string(r)`: an invalid byte is U+FFFD.
abbrev pub rune_string : Glyph → Bytes
rune_string g = elim (g.rune) [ none ↦ 0xEF ∷ 0xBF ∷ 0xBD ∷ [] | some r ↦ g.raw ]

-- The value of a string flag in a cluster: what is attached to it, or the next argument.
unfoldable pub short_value : List Flag → Bytes → Bytes → List Bytes → Step
unfolding set_first
short_value fs short (c ∷ value) next = ok (set_first (has_short short) (c ∷ value) fs, false)
short_value fs short [] [] = err (needs_argument short)
short_value fs short [] (value ∷ rest) = ok (set_first (has_short short) value fs, true)

-- The loop of `parseShort` over a cluster.
unfoldable pub parse_short : List Flag → Bytes → List Glyph → List Bytes → Step
unfolding lookup_short short_value
parse_short fs arg [] next = ok (fs, false)
parse_short fs arg (g ∷ gs) next = elim (lookup_short (rune_string g) fs) [
  | none ↦ err (unknown_shorthand (rune_string g) arg)
  | some f ↦
      if is_string f.kind
      then short_value fs (rune_string g) (raw_string gs) next
      else parse_short (set_first (has_short (rune_string g)) [] fs) arg gs next
]

-- The two cases of the `switch` that read a flag.
unfoldable pub parse_flag : List Flag → Bytes → List Bytes → Step
unfolding parse_long parse_short
parse_flag fs (d ∷ e ∷ body) next =
    if has_prefix (d ∷ e ∷ body) (codes "--")
    then parse_long fs (d ∷ e ∷ body) body next
    else parse_short fs (d ∷ e ∷ body) (glyphs (e ∷ body)) next
parse_flag fs (d ∷ []) next = parse_short fs (d ∷ []) [] next
parse_flag fs [] next = parse_short fs [] [] next

abbrev pub is_positional : Bytes → Bool
is_positional arg = bytes_eq arg (codes "-") || not (has_prefix arg (codes "-"))

abbrev pub is_terminator : Bytes → Bool
is_terminator arg = bytes_eq arg (codes "--")

-- The flags, and the first positional argument with all that follow it.
unfoldable pub parse_flags : List Flag → List Bytes → Result ArgError (List Flag × List Bytes)
unfolding parse_flag has_prefix bytes_eq
parse_flags fs [] = ok (fs, [])
parse_flags fs (arg ∷ []) =
    if is_terminator arg
    then ok (fs, [])
    else if is_positional arg
    then ok (fs, arg ∷ [])
    else (do (fs', consumed) ← parse_flag fs arg []; ok (fs', []))
parse_flags fs (arg ∷ next ∷ rest) =
    let onward = λ (fs' : List Flag). parse_flags fs' (next ∷ rest) in
    let past = λ (fs' : List Flag). parse_flags fs' rest in
    if is_terminator arg
    then ok (fs, next ∷ rest)
    else if is_positional arg
    then ok (fs, arg ∷ next ∷ rest)
    else (do
      (fs', consumed) ← parse_flag fs arg (next ∷ rest)
      if consumed then past fs' else onward fs')

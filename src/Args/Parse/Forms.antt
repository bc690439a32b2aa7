-- ===== src/Args/Parse/Forms.antt =====
-- The forms in which an option may be given, and what the parser leaves.
use ssh_sign.Prelude.{
  ℕ, true, false, ◌||◌, List, [], ◌∷◌, ◌++◌, Option, none, some, ◌≡◌, refl, ap, ◌∙◌, arith, is_nil,
  ◌==◌, ok,
}
use ssh_sign.Text.Bytes.{Bytes, codes, bytes_eq, has_prefix, cut, mem_byte}
use ssh_sign.Args.Flags.{Flag, is_string, has_long, lookup, set_first}
use ssh_sign.Args.Parse.{long_value, long_flag, parse_long, long_parts, parse_flag, parse_flags}

-- A name without the separator is cut off at it, and alone is not cut.
cut-append :
    (sep : ℕ) (name value : Bytes)
    → mem_byte sep name ≡ false
    → cut sep (name ++ sep ∷ value) ≡ some (name, value)
unfolding cut
cut-append sep [] value h = ground arith
cut-append sep (c ∷ name) value h =
    let rest = cut-append sep name value (ground arith) in
    let other : (c == sep) ≡ false = ground arith in rw (other, rest)

cut-none : (sep : ℕ) (name : Bytes) → mem_byte sep name ≡ false → cut sep name ≡ none
unfolding cut
cut-none sep [] h = refl
cut-none sep (c ∷ name) h =
    let rest = cut-none sep name (ground arith) in
    let other : (c == sep) ≡ false = ground arith in rw (other, rest)

abbrev pub long_argument : Bytes → Bytes
long_argument body = b'-' ∷ b'-' ∷ body

-- A name that `--` makes an option of, without the separator in it.
pub record IsName (name : Bytes) : Type 0 where
  pub not_nil : is_nil name ≡ false
  pub no_dash : has_prefix name (codes "-") ≡ false
  pub no_separator : mem_byte b'=' name ≡ false

parse_long_parts :
    (fs : List Flag) (arg body : Bytes) (next : List Bytes) (p : Bytes × Option Bytes)
    → long_parts body ≡ p
    → parse_long fs arg body next ≡ long_flag fs arg p.0 p.1 next
unfolding parse_long
parse_long_parts fs arg body next p h = ap (λ q. long_flag fs arg q.0 q.1 next) h

long_flag-string :
    (fs : List Flag) (arg name : Bytes) (f : Flag) (value : Option Bytes) (next : List Bytes)
    → IsName name
    → lookup name fs ≡ some f
    → is_string f.kind ≡ true
    → long_flag fs arg name value next ≡ long_value fs name value next
unfolding long_flag
long_flag-string fs arg name f value next w e s =
    let plain : (is_nil name || has_prefix name (codes "-")) ≡ false = ground (arith, w) in
    rw (plain, e) (rw s)

long_parts-joined :
    (name value : Bytes)
    → mem_byte b'=' name ≡ false
    → long_parts (name ++ b'=' ∷ value) ≡ (name, some value)
long_parts-joined name value h = rw (long_parts, cut-append b'=' name value h)

long_parts-separate : (name : Bytes) → mem_byte b'=' name ≡ false → long_parts name ≡ (name, none)
long_parts-separate name h = rw (long_parts, cut-none b'=' name h)

-- The argument behind two dashes is no terminator and no positional argument.
parse_flags-long :
    (fs : List Flag) (body : Bytes) (rest : List Bytes) (fs' : List Flag)
    → is_nil body ≡ false
    → ((next : List Bytes) → parse_long fs (long_argument body) body next ≡ ok (fs', false))
    → parse_flags fs (long_argument body ∷ rest) ≡ parse_flags fs' rest
unfolding parse_flags parse_flag has_prefix bytes_eq
parse_flags-long fs [] rest fs' n h = cc
parse_flags-long fs (c ∷ body) [] fs' n h = rw (h [])
parse_flags-long fs (c ∷ body) (x ∷ rest) fs' n h = rw (h (x ∷ rest))

parse_flags-long_value :
    (fs : List Flag) (body value : Bytes) (rest : List Bytes) (fs' : List Flag)
    → is_nil body ≡ false
    → parse_long fs (long_argument body) body (value ∷ rest) ≡ ok (fs', true)
    → parse_flags fs (long_argument body ∷ value ∷ rest) ≡ parse_flags fs' rest
unfolding parse_flags parse_flag has_prefix bytes_eq
parse_flags-long_value fs [] value rest fs' n h = cc
parse_flags-long_value fs (c ∷ body) value rest fs' n h = rw h

-- The value of a registered string flag may be attached to its long name by an equals sign or
-- follow it as the next argument: either sets the flag, and parsing goes on behind it. The name is
-- not empty, begins with no dash and has no equals sign.
pub parse_flags_long_forms :
    (fs : List Flag) (name value : Bytes) (f : Flag) (rest : List Bytes)
    → IsName name
    → lookup name fs ≡ some f
    → is_string f.kind ≡ true
    → (parse_flags fs (long_argument (name ++ b'=' ∷ value) ∷ rest)
        ≡ parse_flags (set_first (has_long name) value fs) rest)
      × (parse_flags fs (long_argument name ∷ value ∷ rest)
          ≡ parse_flags (set_first (has_long name) value fs) rest)
unfolding long_value
parse_flags_long_forms fs name value f rest w e s = (
  parse_flags-long fs (name ++ b'=' ∷ value) rest (set_first (has_long name) value fs)
      (joined-not-nil name)
      (λ next.
        parse_long_parts fs _ _ next _ (long_parts-joined name value w.no_separator)
        ∙ long_flag-string fs _ name f (some value) next w e s),
  parse_flags-long_value fs name value rest (set_first (has_long name) value fs) w.not_nil (
      parse_long_parts fs _ _ (value ∷ rest) _ (long_parts-separate name w.no_separator)
      ∙ long_flag-string fs _ name f none (value ∷ rest) w e s),
)
  where
    joined-not-nil : (n : Bytes) → is_nil (n ++ b'=' ∷ value) ≡ false
    joined-not-nil [] = refl
    joined-not-nil (c ∷ n) = refl

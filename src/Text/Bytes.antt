-- ===== src/Text/Bytes.antt =====
-- Go strings as byte lists, and the calls of the standard library's `strings` and `bytes`
-- packages that the program makes.
use Prim.Native.Char.{code}
use Prim.Native.String.{String}
use ssh_sign.Prelude.{
  ℕ, Bool, true, false, ◌&&◌, ◌||◌, List, [], ◌∷◌, ◌++◌, Option, none, some, ◌≡◌, ◌↔◌, refl, arith,
  ◌==◌, if◌then◌else◌, any, leb, length, drop, ◌-◌, ◌||◌,
}

abbrev pub Bytes : Type 0
Bytes = List ℕ

-- The bytes of an ASCII literal.
abbrev pub codes : String → Bytes
codes String.[] = []
codes (String.◌∷◌ c s) = code c ∷ codes s

-- `==` on strings
unfoldable pub bytes_eq : Bytes → Bytes → Bool
bytes_eq [] [] = true
bytes_eq (x ∷ xs) (y ∷ ys) = x == y && bytes_eq xs ys
bytes_eq [] (y ∷ ys) = false
bytes_eq (x ∷ xs) [] = false

pub bytes_eq_iff : (a b : Bytes) → (bytes_eq a b ≡ true) ↔ (a ≡ b)
unfolding bytes_eq
bytes_eq_iff [] [] = ground arith
bytes_eq_iff (x ∷ xs) (y ∷ ys) = ground (arith, bytes_eq_iff xs ys)
bytes_eq_iff [] (y ∷ ys) = ground arith
bytes_eq_iff (x ∷ xs) [] = ground arith

pub bytes_eq_refl : (a : Bytes) → bytes_eq a a ≡ true
bytes_eq_refl a = (bytes_eq_iff a a).1 refl

-- `strings.HasPrefix(s, prefix)`
unfoldable pub has_prefix : Bytes → Bytes → Bool
has_prefix s [] = true
has_prefix [] (p ∷ ps) = false
has_prefix (c ∷ s) (p ∷ ps) = c == p && has_prefix s ps

-- `strings.HasSuffix(s, suffix)`
unfoldable pub has_suffix : Bytes → Bytes → Bool
unfolding bytes_eq
has_suffix s suffix =
    leb (length suffix) (length s) && bytes_eq (drop (length s - length suffix) s) suffix

-- `bytes.Contains(s, sub)`
unfoldable pub contains : Bytes → Bytes → Bool
unfolding has_prefix
contains [] sub = has_prefix [] sub
contains (c ∷ s) sub = has_prefix (c ∷ s) sub || contains s sub

-- `strings.TrimPrefix(s, prefix)`, for a prefix that the caller has found
unfoldable pub trim_prefix : Bytes → Bytes → Bytes
trim_prefix s [] = s
trim_prefix [] (p ∷ ps) = []
trim_prefix (c ∷ s) (p ∷ ps) = trim_prefix s ps

-- `strings.IndexByte(set, c) >= 0`
abbrev pub mem_byte : ℕ → Bytes → Bool
mem_byte c = any (λ d. c == d)

-- `strings.ContainsAny(s, set)`
unfoldable pub contains_any : Bytes → Bytes → Bool
contains_any s set = any (λ c. mem_byte c set) s

unfoldable pub trim_left : (ℕ → Bool) → Bytes → Bytes
trim_left f [] = []
trim_left f (c ∷ s) = let rest = trim_left f s in if f c then rest else c ∷ s

unfoldable pub trim_right : (ℕ → Bool) → Bytes → Bytes
trim_right f [] = []
trim_right f (c ∷ s) = elim (trim_right f s) [ [] ↦ if f c then [] else c ∷ [] | d ∷ r ↦ c ∷ d ∷ r ]

-- `strings.Trim(s, cutset)`, with the cutset as a test
unfoldable pub trim : (ℕ → Bool) → Bytes → Bytes
unfolding trim_left trim_right
trim f s = trim_right f (trim_left f s)

-- `strings.Cut(s, sep)` at a one-byte separator; `none` where it does not occur
unfoldable pub cut : ℕ → Bytes → Option (Bytes × Bytes)
cut sep [] = none
cut sep (c ∷ s) =
    if c == sep
    then some ([], s)
    else elim (cut sep s) [ none ↦ none | some (a, b) ↦ some (c ∷ a, b) ]

-- `strings.Split(s, sep)` at a one-byte separator: `pending` is the piece being read
unfoldable pub split_onto : ℕ → Bytes → Bytes → List Bytes
split_onto sep pending [] = pending ∷ []
split_onto sep pending (c ∷ s) =
    if c == sep then pending ∷ split_onto sep [] s else split_onto sep (pending ++ c ∷ []) s

unfoldable pub split : ℕ → Bytes → List Bytes
unfolding split_onto
split sep s = split_onto sep [] s

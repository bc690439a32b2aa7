-- ===== src/Signers/Fields/Plain.antt =====
-- Plain fields are split off unchanged, and what follows the last is not interpreted.
use ssh_sign.Prelude.{
  ℕ, zero, suc, ◌+◌, ◌-◌, ◌≤◌, ◌<◌, Bool, true, false, not, ◌&&◌, List, [], ◌∷◌, ◌++◌, ◌≡◌, refl,
  ◌∙◌, arith, ◌==◌, length, length-append, is_nil, all, ok, append-nil, append_assoc,
}
use ssh_sign.Text.Bytes.{Bytes, trim_left}
use ssh_sign.Signers.Fields.{is_separator, field_byte, fields_loop, split_fields}

-- A byte of a plain field: no quote and no separator.
abbrev pub is_plain : ℕ → Bool
is_plain c = not (c == b'"') && not (is_separator c)

-- A field that needs no quotes.
abbrev pub IsPlain : Bytes → Type 0
IsPlain f = (all is_plain f ≡ true) × (is_nil f ≡ false)

abbrev pub ArePlain : List Bytes → Type 0
ArePlain [] = Unit
ArePlain (f ∷ fs) = IsPlain f × ArePlain fs

-- The fields, with one space behind each.
abbrev pub spaced : List Bytes → Bytes → Bytes
spaced [] rest = rest
spaced (f ∷ fs) rest = f ++ b' ' ∷ spaced fs rest

loop_byte :
    (limit fuel : ℕ) (b : Bytes) (out : List Bytes) (c : ℕ) (s : Bytes)
    → fields_loop limit (suc fuel) false b out (c ∷ s)
      ≡ field_byte limit false b out c s (fields_loop limit fuel)
unfolding fields_loop
loop_byte limit fuel b out c [] = refl
loop_byte limit fuel b out c (d ∷ s) = refl

plain_byte :
    (limit fuel : ℕ) (b : Bytes) (out : List Bytes) (c : ℕ) (s : Bytes)
    → is_plain c ≡ true
    → field_byte limit false b out c s (fields_loop limit fuel)
      ≡ fields_loop limit fuel false (b ++ c ∷ []) out s
unfolding field_byte
plain_byte limit fuel b out c s h = ground arith

loop_plain :
    (f : Bytes) (limit fuel k : ℕ) (b : Bytes) (out : List Bytes) (s : Bytes)
    → fuel ≡ length f + k
    → all is_plain f ≡ true
    → fields_loop limit fuel false b out (f ++ s) ≡ fields_loop limit k false (b ++ f) out s
loop_plain [] limit fuel k b out s e h = let same : fuel ≡ k = omega arith in rw (same, append-nil)
loop_plain (c ∷ f) limit zero k b out s e h = absurd (omega arith)
loop_plain (c ∷ f) limit (suc fuel) k b out s e h =
    loop_byte limit fuel b out c (f ++ s)
    ∙ plain_byte limit fuel b out c (f ++ s) (ground arith)
    ∙ loop_plain f limit fuel k (b ++ c ∷ []) out s (omega arith) (ground arith)
    ∙ rw append_assoc

trim_left-spaced :
    (f : Bytes) (fs : List Bytes) (rest : Bytes)
    → IsPlain f
    → trim_left is_separator (spaced (f ∷ fs) rest) ≡ spaced (f ∷ fs) rest
unfolding trim_left
trim_left-spaced [] fs rest (h, n) = cc
trim_left-spaced (c ∷ f) fs rest (h, n) = ground arith

-- The separator behind a plain field, where room is left for another.
space_between :
    (limit k : ℕ) (f : Bytes) (out : List Bytes) (s : Bytes)
    → is_nil f ≡ false
    → length out + 1 < limit
    → fields_loop limit (suc k) false f out (b' ' ∷ s)
      ≡ fields_loop limit k false [] (out ++ f ∷ []) (trim_left is_separator s)
unfolding field_byte
space_between limit k f out s n l =
    loop_byte limit k f out b' ' s ∙ ground (arith, length-append out (f ∷ []))

-- The separator behind the last field that is asked for.
space_after :
    (limit k : ℕ) (f : Bytes) (out : List Bytes) (s : Bytes)
    → is_nil f ≡ false
    → length out + 1 ≡ limit
    → fields_loop limit (suc k) false f out (b' ' ∷ s)
      ≡ ok (out ++ f ∷ [], trim_left is_separator s)
unfolding field_byte
space_after limit k f out s n l =
    loop_byte limit k f out b' ' s ∙ ground (arith, length-append out (f ∷ []))

loop_spaced :
    (f : Bytes) (fs : List Bytes) (limit fuel : ℕ) (out : List Bytes) (rest : Bytes)
    → ArePlain (f ∷ fs)
    → length out + length (f ∷ fs) ≡ limit
    → length (spaced (f ∷ fs) rest) ≤ fuel
    → fields_loop limit fuel false [] out (spaced (f ∷ fs) rest)
      ≡ ok (out ++ f ∷ fs, trim_left is_separator rest)
loop_spaced f [] limit fuel out rest ((h, n), _) l e =
    let long = length-append f (b' ' ∷ rest) in
    let k = fuel - length f - 1 in
    loop_plain f limit fuel (suc k) [] out (b' ' ∷ rest) (omega arith) h
    ∙ space_after limit k f out rest n (omega arith)
loop_spaced f (g ∷ fs) limit fuel out rest ((h, n), (p, ps)) l e =
    let long = length-append f (b' ' ∷ spaced (g ∷ fs) rest) in
    let k = fuel - length f - 1 in
    loop_plain f limit fuel (suc k) [] out (b' ' ∷ spaced (g ∷ fs) rest) (omega arith) h
    ∙ space_between limit k f out (spaced (g ∷ fs) rest) n (omega arith)
    ∙ rw (trim_left-spaced g fs rest p) (
        loop_spaced g fs limit k (out ++ f ∷ []) rest (p, ps)
          (omega (arith, length-append out (f ∷ []))) (omega arith)
        ∙ rw append_assoc)

-- Fields without quotes and separators come back as they were written, and the text behind the
-- last field asked for comes back without its leading separators, whatever it holds.
pub split_fields-spaced :
    (f : Bytes) (fs : List Bytes) (rest : Bytes)
    → ArePlain (f ∷ fs)
    → split_fields (spaced (f ∷ fs) rest) (length (f ∷ fs))
      ≡ ok (f ∷ fs, trim_left is_separator rest)
unfolding split_fields
split_fields-spaced f fs rest h =
    loop_spaced f fs (length (f ∷ fs)) _ [] rest h (omega arith) (omega arith)

-- ===== src/Cli/Escape/Clean.antt =====
-- What is left of the controls in escaped text.
use ssh_sign.Prelude.{
  ℕ, ◌/◌, ◌%◌, ◌<◌, Bool, true, false, not, ◌&&◌, [], ◌∷◌, ◌++◌, ◌≡◌, refl, arith, ◌==◌, ltb,
  Bool-cases, inl, inr, all,
}
use ssh_sign.Text.Bytes.{Bytes}
use ssh_sign.Text.Numbers.{hex_digit}
use ssh_sign.Cli.Escape.{unicode_escape, is_c1, escape_json_controls}

-- Neither a delete character nor a two-byte control stands in the text.
abbrev pub is_clean : Bytes → Bool
is_clean [] = true
is_clean (a ∷ []) = not (a == 0x7f)
is_clean (a ∷ b ∷ s) = not (a == 0x7f) && not (is_c1 a b) && is_clean (b ∷ s)

-- A byte below the leading one of a two-byte control, in front of clean text.
cons-is_clean : (a : ℕ) (s : Bytes) → a < 0x7f → is_clean s ≡ true → is_clean (a ∷ s) ≡ true
cons-is_clean a [] l h = ground arith
cons-is_clean a (b ∷ s) l h = ground arith

append-is_clean :
    (p s : Bytes) → all (λ c. ltb c 0x7f) p ≡ true → is_clean s ≡ true → is_clean (p ++ s) ≡ true
append-is_clean [] s l h = h
append-is_clean (c ∷ p) s l h =
    cons-is_clean c (p ++ s) (ground arith) (append-is_clean p s (ground arith) h)

hex_digit-lt : (d : ℕ) → d < 16 → ltb (hex_digit d) 0x7f ≡ true
hex_digit-lt d h = ground arith

escape-is_clean :
    (r : ℕ) (s : Bytes) → r < 256 → is_clean s ≡ true → is_clean (unicode_escape r ++ s) ≡ true
escape-is_clean r s l h =
    let first = hex_digit-lt (r / 16) (omega arith) in
    let second = hex_digit-lt (r % 16) (omega arith) in
    append-is_clean (unicode_escape r) s (rw (first, second)) h

-- Behind a byte that begins no control with the next one, the escaped rest stays clean.
next-is_clean :
    (a b : ℕ) (s : Bytes)
    → (a == 0x7f) ≡ false
    → is_c1 a b ≡ false
    → is_clean (escape_json_controls (b ∷ s)) ≡ true
    → is_clean (a ∷ escape_json_controls (b ∷ s)) ≡ true
unfolding escape_json_controls
next-is_clean a b [] n c h = ground arith
next-is_clean a b (d ∷ s) n c h = ground arith

-- Escaped text has no delete character and no two-byte control (U+0080 to U+009F).
pub escape_json_controls-is_clean : (s : Bytes) → is_clean (escape_json_controls s) ≡ true
unfolding escape_json_controls
escape_json_controls-is_clean [] = refl
escape_json_controls-is_clean (a ∷ []) = ground arith
escape_json_controls-is_clean (a ∷ b ∷ s) = elim (Bool-cases (a == 0x7f)) [
  | inl e ↦ rw e (
      escape-is_clean 0x7f (escape_json_controls (b ∷ s)) (omega arith)
        (escape_json_controls-is_clean (b ∷ s)))
  | inr n ↦ elim (Bool-cases (is_c1 a b)) [
    | inl c ↦
        rw (n, c)
          (escape-is_clean b (escape_json_controls s) (ground arith)
            (escape_json_controls-is_clean s))
    | inr f ↦ rw (n, f) (next-is_clean a b s n f (escape_json_controls-is_clean (b ∷ s)))
  ]
]

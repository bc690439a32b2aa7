-- ===== src/Cli/Plain.antt =====
-- Text that is shown has no control bytes, so that it stays on its line and moves no cursor.
pub mod Escaped
use ssh_sign.Prelude.{
  ℕ, ◌-◌, Bool, true, false, not, ◌&&◌, ◌||◌, List, [], ◌∷◌, ◌++◌, Option, none, some, ◌==◌, leb,
  if◌then◌else◌, is_some, all, any, map, ◌≡◌, refl, ap, arith, Bool-cases, inl, inr,
}
use ssh_sign.Text.Bytes.{Bytes}
use ssh_sign.Text.Utf8.{
  Glyph, glyphs, raw_string, valid_string, is_two, is_three, is_four, two, three, four, one,
}
use ssh_sign.Cli.Escape.{is_control}
use ssh_sign.Cli.Format.{is_plain, is_control_glyph}

-- A byte that is no control character of ASCII.
abbrev pub is_visible : ℕ → Bool
is_visible c = leb 0x20 c && not (c == 0x7f)

abbrev pub AreVisible : Bytes → Type 0
AreVisible s = all is_visible s ≡ true

pub all-append {ℓ} :
    {A : Type ℓ} (f : A → Bool) (xs ys : List A)
    → all f xs ≡ true
    → all f ys ≡ true
    → all f (xs ++ ys) ≡ true
all-append f [] ys h k = k
all-append f (x ∷ xs) ys h k = ground (arith, all-append f xs ys)

-- What a decoded glyph is: invalid, a control, or visible.
abbrev pub is_harmless : Glyph → Bool
is_harmless g = elim (g.rune) [ none ↦ true | some r ↦ is_control r || all is_visible g.raw ]

one-is_harmless : (a : ℕ) → is_harmless (one a) ≡ true
unfolding is_control
one-is_harmless a = ground arith

two-is_harmless : (a b : ℕ) → is_two a b ≡ true → is_harmless (two a b) ≡ true
unfolding is_control is_two
two-is_harmless a b h = ground arith

three-is_harmless : (a b c : ℕ) → is_three a b c ≡ true → is_harmless (three a b c) ≡ true
unfolding is_control is_three
three-is_harmless a b c h = ground arith

four-is_harmless : (a b c d : ℕ) → is_four a b c d ≡ true → is_harmless (four a b c d) ≡ true
unfolding is_control is_four
four-is_harmless a b c d h = ground arith

raw_string-glyphs : (s : Bytes) → raw_string (glyphs s) ≡ s
unfolding glyphs
raw_string-glyphs [] = refl
raw_string-glyphs (a ∷ []) = refl
raw_string-glyphs (a ∷ b ∷ []) = ground (arith, raw_string-glyphs (b ∷ []))
raw_string-glyphs (a ∷ b ∷ c ∷ []) =
    ground (arith, raw_string-glyphs (b ∷ c ∷ []), raw_string-glyphs (c ∷ []))
raw_string-glyphs (a ∷ b ∷ c ∷ d ∷ s) = ground (
  arith,
  raw_string-glyphs (b ∷ c ∷ d ∷ s),
  raw_string-glyphs (c ∷ d ∷ s),
  raw_string-glyphs (d ∷ s),
  raw_string-glyphs s,
)

glyphs-is_harmless : (s : Bytes) → all is_harmless (glyphs s) ≡ true
unfolding glyphs
glyphs-is_harmless [] = refl
glyphs-is_harmless (a ∷ []) = ground (arith, one-is_harmless a)
glyphs-is_harmless (a ∷ b ∷ []) = elim (Bool-cases (is_two a b)) [
  | inl t ↦ rw t (ground (arith, two-is_harmless a b t))
  | inr n ↦ rw n (ground (arith, one-is_harmless a, glyphs-is_harmless (b ∷ [])))
]
glyphs-is_harmless (a ∷ b ∷ c ∷ []) = elim (Bool-cases (is_two a b)) [
  | inl t ↦ rw t (ground (arith, two-is_harmless a b t, glyphs-is_harmless (c ∷ [])))
  | inr n ↦ elim (Bool-cases (is_three a b c)) [
    | inl t ↦ rw (n, t) (ground (arith, three-is_harmless a b c t))
    | inr k ↦ rw (n, k) (ground (arith, one-is_harmless a, glyphs-is_harmless (b ∷ c ∷ [])))
  ]
]
glyphs-is_harmless (a ∷ b ∷ c ∷ d ∷ s) = elim (Bool-cases (is_two a b)) [
  | inl t ↦ rw t (ground (arith, two-is_harmless a b t, glyphs-is_harmless (c ∷ d ∷ s)))
  | inr n ↦ elim (Bool-cases (is_three a b c)) [
    | inl t ↦ rw (n, t) (ground (arith, three-is_harmless a b c t, glyphs-is_harmless (d ∷ s)))
    | inr k ↦ elim (Bool-cases (is_four a b c d)) [
      | inl t ↦ rw (n, k, t) (ground (arith, four-is_harmless a b c d t, glyphs-is_harmless s))
      | inr o ↦ rw (n, k, o) (ground (arith, one-is_harmless a, glyphs-is_harmless (b ∷ c ∷ d ∷ s)))
    ]
  ]
]

-- Glyphs of valid text without controls.
plain_raw :
    (gs : List Glyph)
    → all is_harmless gs ≡ true
    → all is_some (map (λ (g : Glyph). g.rune) gs) ≡ true
    → any is_control_glyph gs ≡ false
    → AreVisible (raw_string gs)
plain_raw [] h v n = refl
plain_raw (g ∷ gs) h v n =
    let rest = plain_raw gs (ground arith) (ground arith) (ground arith) in
    all-append is_visible g.raw (raw_string gs) (ground arith) rest

pub is_plain-AreVisible : (s : Bytes) → is_plain s ≡ true → AreVisible s
unfolding is_plain valid_string
is_plain-AreVisible s h =
    rw (← raw_string-glyphs s)
      (plain_raw (glyphs s) (glyphs-is_harmless s) (ground arith) (ground arith))

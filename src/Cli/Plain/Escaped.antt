-- ===== src/Cli/Plain/Escaped.antt =====
-- Untrusted text that is escaped or quoted has no control bytes.
use ssh_sign.Prelude.{
  ℕ, zero, suc, ◌+◌, ◌-◌, ◌/◌, ◌%◌, Bool, true, false, List, [], ◌∷◌, ◌++◌, all, map, length,
  length-map, ◌≡◌, refl, arith, Bool-cases, Option-cases, ◌==◌, inl, inr, ℤ, pos, negsuc,
}
use ssh_sign.Text.Bytes.{Bytes, trim, trim_left, trim_right}
use ssh_sign.Text.Numbers.{decimal, digits_onto}
use ssh_sign.Text.Utf8.{Glyph, glyphs}
use ssh_sign.Cli.Escape.{is_control}
use ssh_sign.Cli.Format.{
  Value, text, number, Field, is_plain, shown, spaces, padded, quoted_value, format_line, format_kv,
  join_lines, escaped_glyph, escaped_glyphs, escape_control,
}
use ssh_sign.Cli.Plain.{
  is_visible, AreVisible, is_harmless, all-append, glyphs-is_harmless, is_plain-AreVisible,
}

trim_left-AreVisible : (f : ℕ → Bool) (s : Bytes) → AreVisible s → AreVisible (trim_left f s)
unfolding trim_left
trim_left-AreVisible f [] h = refl
trim_left-AreVisible f (c ∷ s) h = ground (arith, trim_left-AreVisible f s)

trim_right-AreVisible : (f : ℕ → Bool) (s : Bytes) → AreVisible s → AreVisible (trim_right f s)
unfolding trim_right
trim_right-AreVisible f [] h = refl
trim_right-AreVisible f (c ∷ s) h = ground (arith, trim_right-AreVisible f s)

trim-AreVisible : (f : ℕ → Bool) (s : Bytes) → AreVisible s → AreVisible (trim f s)
unfolding trim
trim-AreVisible f s h = trim_right-AreVisible f (trim_left f s) (trim_left-AreVisible f s h)

-- What `strconv` documents of a quoted rune: it has no control characters.
module _ (quote_rune : ℕ → Bytes) (quoted : (r : ℕ) → AreVisible (quote_rune r)) where
  escaped_glyph-AreVisible :
      (g : Glyph) → is_harmless g ≡ true → AreVisible (escaped_glyph quote_rune g)
  unfolding escaped_glyph
  escaped_glyph-AreVisible g h = elim (Option-cases g.rune) [
    | inl n ↦ rw n
    | inr (r, e) ↦ elim (Bool-cases (is_control r)) [
      | inl c ↦ rw (e, c) (trim-AreVisible (λ c. c == b'\'') (quote_rune r) (quoted r))
      | inr n ↦ rw (e, n) (ground arith)
    ]
  ]

  escaped_glyphs-AreVisible :
      (gs : List Glyph) → all is_harmless gs ≡ true → AreVisible (escaped_glyphs quote_rune gs)
  unfolding escaped_glyphs
  escaped_glyphs-AreVisible [] h = refl
  escaped_glyphs-AreVisible (g ∷ gs) h =
      all-append is_visible (escaped_glyph quote_rune g) (escaped_glyphs quote_rune gs)
        (escaped_glyph-AreVisible g (ground arith)) (escaped_glyphs-AreVisible gs (ground arith))

  -- Escaped text has no control bytes, whatever the text is.
  pub escape_control-AreVisible : (s : Bytes) → AreVisible (escape_control quote_rune s)
  unfolding escape_control
  escape_control-AreVisible s = elim (Bool-cases (is_plain s)) [
    | inl p ↦ rw p (is_plain-AreVisible s p)
    | inr n ↦ rw n (escaped_glyphs-AreVisible (glyphs s) (glyphs-is_harmless s))
  ]

digits_onto-AreVisible :
    (rounds n : ℕ) (out : Bytes) → AreVisible out → AreVisible (digits_onto rounds n out)
unfolding digits_onto
digits_onto-AreVisible zero n out h = h
digits_onto-AreVisible (suc rounds) n out h =
    ground (arith, digits_onto-AreVisible rounds (n / 10) ((n % 10 + b'0') ∷ out))

pub decimal-AreVisible : (n : ℕ) → AreVisible (decimal n)
unfolding decimal
decimal-AreVisible n = digits_onto-AreVisible (n + 1) n [] refl

spaces-AreVisible : (n : ℕ) → AreVisible (spaces n)
spaces-AreVisible zero = refl
spaces-AreVisible (suc n) = spaces-AreVisible n

padded-AreVisible : (pad : ℤ) (s : Bytes) → AreVisible s → AreVisible (padded pad s)
unfolding padded
padded-AreVisible (pos n) s h =
    let n' = n - length (glyphs s) in all-append is_visible (spaces n') s (spaces-AreVisible n') h
padded-AreVisible (negsuc n) s h =
    let n' = suc n - length (glyphs s) in
    all-append is_visible s (spaces n') h (spaces-AreVisible n')

module _ (quote : Bytes → Bytes) (quoted : (s : Bytes) → AreVisible (quote s)) where
  shown-AreVisible : (v : Value) → AreVisible (shown (quoted_value quote v))
  unfolding shown quoted_value
  shown-AreVisible (number n) = decimal-AreVisible n
  shown-AreVisible (text s) = elim (Bool-cases (is_plain s)) [
    | inl p ↦ rw p (is_plain-AreVisible s p)
    | inr n ↦ rw n (quoted s)
  ]

  -- Lines of a result without colours have no control bytes, whatever the values are.
  pub format_line-AreVisible :
      (pad : ℤ) (prefix delim : Bytes) (f : Field)
      → AreVisible prefix
      → AreVisible delim
      → AreVisible f.key
      → AreVisible (format_line quote false pad prefix delim f)
  unfolding format_line
  format_line-AreVisible pad prefix delim f p d k =
      let shown_value = shown (quoted_value quote f.value) in
      all-append is_visible prefix (padded pad f.key ++ (delim ++ shown_value)) p (
        all-append is_visible (padded pad f.key) (delim ++ shown_value)
          (padded-AreVisible pad f.key k)
          (all-append is_visible delim shown_value d (shown-AreVisible f.value)))

  -- Without colours a result is one line for each field, and no line has control bytes, whatever the
  -- values are: the prefix, the delimiter and the keys have none.
  pub format_kv-AreVisible :
      (pad : ℤ) (prefix delim : Bytes) (fields : List Field)
      → AreVisible prefix
      → AreVisible delim
      → all (λ (f : Field). all is_visible f.key) fields ≡ true
      → (lines : List Bytes) × (format_kv quote false pad prefix delim fields ≡ join_lines lines)
        × (length lines ≡ length fields)
        × (all (all is_visible) lines ≡ true)
  unfolding format_kv
  format_kv-AreVisible pad prefix delim fields p d k = (
    map (format_line quote false pad prefix delim) fields,
    refl,
    length-map _ fields,
    lines_visible fields k,
  )
    where
      lines_visible :
          (fs : List Field)
          → all (λ (f : Field). all is_visible f.key) fs ≡ true
          → all (all is_visible) (map (format_line quote false pad prefix delim) fs) ≡ true
      lines_visible [] k = refl
      lines_visible (f ∷ fs) k =
          ground (arith, format_line-AreVisible pad prefix delim f p d, lines_visible fs)

-- ===== src/Sshsig/Armor/RoundTrip.antt =====
-- The body of an armored block is read back, and an armored signature too.
use ssh_sign.Prelude.{
  ℕ, zero, suc, ◌<◌, ◌≡◌, refl, ap, ◌∙◌, arith, true, [], ◌∷◌, ◌++◌, some, ltb, all, is_nil, length,
  take, drop, if◌then◌else◌, Bool-cases, inl, inr, append-nil, take-append-drop, length-drop,
  all-take, all-drop,
}
use ssh_sign.Text.Bytes.{Bytes}
use ssh_sign.Text.Base64.{drop_newlines, quads, decode, encode}
use ssh_sign.Text.Base64.RoundTrip.{are_bytes, is_line_char, encode-is_line_char, quads-encode}
use ssh_sign.Sshsig.Armor.{armor_columns, armor_lines}

-- A line without its newline is kept, and the newline behind it is dropped.
drop_newlines-line :
    (line rest : Bytes)
    → all is_line_char line ≡ true
    → drop_newlines (line ++ b'\n' ∷ rest) ≡ line ++ drop_newlines rest
unfolding drop_newlines
drop_newlines-line [] rest h = refl
drop_newlines-line (c ∷ line) rest h = ground (arith, drop_newlines-line line rest)

drop_newlines-armor_lines :
    (f : ℕ) (s : Bytes)
    → length s < f
    → all is_line_char s ≡ true
    → drop_newlines (armor_lines f s) ≡ s
unfolding armor_lines drop_newlines
drop_newlines-armor_lines zero s l h = absurd (omega arith)
drop_newlines-armor_lines (suc f) s l h = elim (Bool-cases (ltb armor_columns (length s))) [
  | inl t ↦
      let rest =
        drop_newlines-armor_lines f (drop armor_columns s)
          (ground (arith, length-drop armor_columns s)) (all-drop is_line_char armor_columns s h) in
      rw (t) (
        drop_newlines-line (take armor_columns s) _ (all-take is_line_char armor_columns s h)
        ∙ ap (◌++◌ (take armor_columns s)) rest
        ∙ take-append-drop armor_columns s)
  | inr n ↦ rw n (last s h)
]
  where
    last :
        (s : Bytes)
        → all is_line_char s ≡ true
        → drop_newlines (if is_nil s then [] else s ++ b'\n' ∷ []) ≡ s
    last [] h = refl
    last (c ∷ s) h = drop_newlines-line (c ∷ s) [] h ∙ append-nil (c ∷ s)

-- Bytes that are encoded and broken into lines, however many there are, decode to themselves.
pub decode-armor_lines :
    (s : Bytes)
    → are_bytes s ≡ true
    → decode (armor_lines (suc (length (encode s))) (encode s)) ≡ some s
unfolding decode
decode-armor_lines s h =
    ap quads (
      drop_newlines-armor_lines (suc (length (encode s))) (encode s) (omega arith)
        (encode-is_line_char s h))
    ∙ quads-encode s h

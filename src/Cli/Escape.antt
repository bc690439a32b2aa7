-- ===== src/Cli/Escape.antt =====
-- pkg/cli/format.go: `EscapeJSONControls` and `isControl`.
pub mod Clean
use ssh_sign.Prelude.{
  ℕ, ◌+◌, ◌-◌, ◌/◌, ◌%◌, Bool, true, false, not, ◌&&◌, ◌||◌, List, [], ◌∷◌, ◌++◌, ◌==◌, leb, ltb,
  if◌then◌else◌,
}
use ssh_sign.Text.Numbers.{hex_digit}
use ssh_sign.Text.Bytes.{Bytes}

unfoldable pub is_control : ℕ → Bool
is_control r = ltb r 0x20 || r == 0x7f || leb 0x80 r && leb r 0x9f

-- `\u%04x` of a rune below 0x100
abbrev pub unicode_escape : ℕ → Bytes
unicode_escape r = b'\\' ∷ b'u' ∷ b'0' ∷ b'0' ∷ hex_digit (r / 16) ∷ hex_digit (r % 16) ∷ []

-- A control from U+0080 to U+009F in UTF-8: two bytes of which the first is 0xc2.
abbrev pub is_c1 : ℕ → ℕ → Bool
is_c1 a b = a == 0xc2 && leb 0x80 b && leb b 0x9f

unfoldable pub escape_json_controls : Bytes → Bytes
escape_json_controls [] = []
escape_json_controls (a ∷ []) = if a == 0x7f then unicode_escape 0x7f else a ∷ []
escape_json_controls (a ∷ b ∷ s) =
    let next = escape_json_controls (b ∷ s) in
    let past = escape_json_controls s in
    if a == 0x7f
    then unicode_escape 0x7f ++ next
    else if is_c1 a b
    then unicode_escape b ++ past
    else a ∷ next

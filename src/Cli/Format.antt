-- ===== src/Cli/Format.antt =====
-- pkg/cli/format.go and color.go: the lines of a result, and the escaping of untrusted text.
-- `quote` and `quote_rune` stand for `strconv.Quote` and `strconv.QuoteRune`.
use ssh_sign.Prelude.{
  ℕ, zero, suc, ◌-◌, Bool, true, false, not, ◌&&◌, List, [], ◌∷◌, ◌++◌, none, some, ◌==◌,
  if◌then◌else◌, length, any, map, ℤ, pos, negsuc,
}
use ssh_sign.Text.Bytes.{Bytes, codes, bytes_eq, trim}
use ssh_sign.Text.Numbers.{decimal}
use ssh_sign.Text.Utf8.{Glyph, glyphs, valid_string}
use ssh_sign.Cli.Escape.{is_control}

-- What the program shows with `%v`: texts and numbers.
pub data Value : Type 0 where
  text : Bytes → Value
  number : ℕ → Value

pub record Field : Type 0 where
  pub key : Bytes
  pub value : Value
  pub status : Bool

abbrev pub kv : Bytes → Value → Field
kv key value = record { key = key; value = value; status = false }

abbrev pub status_kv : Bytes → Bytes → Field
status_kv key value = record { key = key; value = text value; status = true }

abbrev pub color_red : Bytes
color_red = 0x1b ∷ codes "[31m"

abbrev pub color_green : Bytes
color_green = 0x1b ∷ codes "[32m"

abbrev pub color_yellow : Bytes
color_yellow = 0x1b ∷ codes "[33m"

abbrev pub color_reset : Bytes
color_reset = 0x1b ∷ codes "[0m"

unfoldable pub color_error : Bytes → Bytes
color_error s = color_red ++ (s ++ color_reset)

unfoldable pub color_status : Value → Value
unfolding bytes_eq
color_status (number n) = number n
color_status (text s) =
    if bytes_eq s (codes "valid")
    then text (color_green ++ (s ++ color_reset))
    else if bytes_eq s (codes "invalid")
    then text (color_red ++ (s ++ color_reset))
    else if bytes_eq s (codes "disabled")
    then text (color_yellow ++ (s ++ color_reset))
    else text s

abbrev pub spaces : ℕ → Bytes
spaces zero = []
spaces (suc n) = b' ' ∷ spaces n

-- `%*s` with a width that is negative where the text stands on the left. Go counts runes.
unfoldable pub padded : ℤ → Bytes → Bytes
unfolding glyphs
padded (pos n) s = spaces (n - length (glyphs s)) ++ s
padded (negsuc n) s = s ++ spaces (suc n - length (glyphs s))

-- `strings.Join` with a line feed
abbrev pub join_lines : List Bytes → Bytes
join_lines [] = []
join_lines (line ∷ []) = line
join_lines (line ∷ next ∷ lines) = line ++ (b'\n' ∷ join_lines (next ∷ lines))

-- A rune that is a control; an invalid byte is U+FFFD, which is none.
abbrev pub is_control_glyph : Glyph → Bool
is_control_glyph g = elim (g.rune) [ none ↦ false | some r ↦ is_control r ]

-- Text that is shown as it is.
unfoldable pub is_plain : Bytes → Bool
unfolding glyphs valid_string is_control
is_plain s = valid_string s && not (any is_control_glyph (glyphs s))

-- `fmt.Sprint` of a value
unfoldable pub shown : Value → Bytes
unfolding decimal
shown (text s) = s
shown (number n) = decimal n

module _ (quote : Bytes → Bytes) where
  -- `escapeControl`
  unfoldable pub quoted_value : Value → Value
  unfolding is_plain
  quoted_value (number n) = number n
  quoted_value (text s) = if is_plain s then text s else text (quote s)

  abbrev pub colored : Bool → Field → Value
  colored color f =
      if color && f.status then color_status (quoted_value f.value) else quoted_value f.value

  unfoldable pub format_line : Bool → ℤ → Bytes → Bytes → Field → Bytes
  unfolding quoted_value color_status padded shown
  format_line color pad prefix delim f =
      prefix ++ (padded pad f.key ++ (delim ++ shown (colored color f)))

  unfoldable pub format_kv : Bool → ℤ → Bytes → Bytes → List Field → Bytes
  unfolding format_line
  format_kv color pad prefix delim fields =
      join_lines (map (format_line color pad prefix delim) fields)

-- U+FFFD, which `WriteRune` writes for an invalid byte
abbrev pub replacement : Bytes
replacement = 0xEF ∷ 0xBF ∷ 0xBD ∷ []

module _ (quote_rune : ℕ → Bytes) where
  -- The rune without the quotes around it.
  abbrev pub escaped_rune : ℕ → Bytes
  escaped_rune r = trim (λ c. c == b'\'') (quote_rune r)

  unfoldable pub escaped_glyph : Glyph → Bytes
  unfolding is_control trim
  escaped_glyph g = elim (g.rune) [
    | none ↦ replacement
    | some r ↦ if is_control r then escaped_rune r else g.raw
  ]

  unfoldable pub escaped_glyphs : List Glyph → Bytes
  unfolding escaped_glyph
  escaped_glyphs [] = []
  escaped_glyphs (g ∷ gs) = escaped_glyph g ++ escaped_glyphs gs

  unfoldable pub escape_control : Bytes → Bytes
  unfolding is_plain escaped_glyphs
  escape_control s = if is_plain s then s else escaped_glyphs (glyphs s)

-- ===== src/Text/Utf8.antt =====
-- Go's decoding of UTF-8: `range` over a string and `utf8.ValidString`.
use ssh_sign.Prelude.{
  ℕ, ◌+◌, ◌-◌, ◌*◌, Bool, false, ◌&&◌, ◌||◌, List, [], ◌∷◌, ◌++◌, Option, none, some, ◌==◌, leb,
  ltb, if◌then◌else◌, all, map, is_some,
}
use ssh_sign.Text.Bytes.{Bytes}

abbrev pub within : ℕ → ℕ → ℕ → Bool
within lo hi c = leb lo c && leb c hi

abbrev pub low6 : ℕ → ℕ
low6 c = c - 0x80

-- The second byte that may follow a leading byte of three or four: no overlong form, no
-- surrogate, nothing beyond U+10FFFF.
unfoldable pub second_ok : ℕ → ℕ → Bool
second_ok a b =
    if a == 0xE0
    then within 0xA0 0xBF b
    else if a == 0xED
    then within 0x80 0x9F b
    else if a == 0xF0
    then within 0x90 0xBF b
    else if a == 0xF4
    then within 0x80 0x8F b
    else within 0x80 0xBF b

unfoldable pub is_two : ℕ → ℕ → Bool
is_two a b = within 0xC2 0xDF a && within 0x80 0xBF b

unfoldable pub is_three : ℕ → ℕ → ℕ → Bool
unfolding second_ok
is_three a b c = within 0xE0 0xEF a && second_ok a b && within 0x80 0xBF c

unfoldable pub is_four : ℕ → ℕ → ℕ → ℕ → Bool
unfolding second_ok
is_four a b c d = within 0xF0 0xF4 a && second_ok a b && within 0x80 0xBF c && within 0x80 0xBF d

-- A rune of a string with the bytes that it is read from; `none` is an invalid byte, which Go
-- reads as U+FFFD of width one.
pub record Glyph : Type 0 where
  pub rune : Option ℕ
  pub raw : Bytes

abbrev pub two : ℕ → ℕ → Glyph
two a b = record { rune = some ((a - 0xC0) * 64 + low6 b); raw = a ∷ b ∷ [] }

abbrev pub three : ℕ → ℕ → ℕ → Glyph
three a b c = record {
  rune = some ((a - 0xE0) * 4096 + low6 b * 64 + low6 c);
  raw = a ∷ b ∷ c ∷ [];
}

abbrev pub four : ℕ → ℕ → ℕ → ℕ → Glyph
four a b c d = record {
  rune = some ((a - 0xF0) * 262144 + low6 b * 4096 + low6 c * 64 + low6 d);
  raw = a ∷ b ∷ c ∷ d ∷ [];
}

-- A byte by itself: an ASCII character, or invalid.
abbrev pub one : ℕ → Glyph
one a = record { rune = if ltb a 0x80 then some a else none; raw = a ∷ [] }

-- `range` over a string
unfoldable pub glyphs : Bytes → List Glyph
unfolding is_two is_three is_four
glyphs [] = []
glyphs (a ∷ []) = one a ∷ []
glyphs (a ∷ b ∷ []) =
    let after1 = glyphs (b ∷ []) in if is_two a b then two a b ∷ [] else one a ∷ after1
glyphs (a ∷ b ∷ c ∷ []) =
    let after1 = glyphs (b ∷ c ∷ []) in
    let after2 = glyphs (c ∷ []) in
    if is_two a b
    then two a b ∷ after2
    else if is_three a b c
    then three a b c ∷ []
    else one a ∷ after1
glyphs (a ∷ b ∷ c ∷ d ∷ s) =
    let after1 = glyphs (b ∷ c ∷ d ∷ s) in
    let after2 = glyphs (c ∷ d ∷ s) in
    let after3 = glyphs (d ∷ s) in
    let after4 = glyphs s in
    if is_two a b
    then two a b ∷ after2
    else if is_three a b c
    then three a b c ∷ after3
    else if is_four a b c d
    then four a b c d ∷ after4
    else one a ∷ after1

abbrev pub runes : Bytes → List (Option ℕ)
runes s = map (λ (g : Glyph). g.rune) (glyphs s)

unfoldable pub valid_string : Bytes → Bool
unfolding glyphs
valid_string s = all is_some (runes s)

-- `unicode.IsSpace`
unfoldable pub is_space : Option ℕ → Bool
is_space none = false
is_space (some r) =
    within 9 13 r
    || r == 32
    || r == 0x85
    || r == 0xA0
    || r == 0x1680
    || within 0x2000 0x200A r
    || r == 0x2028
    || r == 0x2029
    || r == 0x202F
    || r == 0x205F
    || r == 0x3000

-- `strings.TrimSpace`, over the runes of the string
unfoldable pub drop_spaces : List Glyph → List Glyph
unfolding is_space
drop_spaces [] = []
drop_spaces (g ∷ gs) = let rest = drop_spaces gs in if is_space g.rune then rest else g ∷ gs

unfoldable pub drop_spaces_right : List Glyph → List Glyph
unfolding is_space
drop_spaces_right [] = []
drop_spaces_right (g ∷ gs) = elim (drop_spaces_right gs) [
  | [] ↦ if is_space g.rune then [] else g ∷ []
  | h ∷ hs ↦ g ∷ h ∷ hs
]

abbrev pub raw_string : List Glyph → Bytes
raw_string [] = []
raw_string (g ∷ gs) = g.raw ++ raw_string gs

unfoldable pub trim_space : Bytes → Bytes
unfolding drop_spaces drop_spaces_right glyphs
trim_space s = raw_string (drop_spaces_right (drop_spaces (glyphs s)))

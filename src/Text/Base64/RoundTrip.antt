-- ===== src/Text/Base64/RoundTrip.antt =====
-- What is encoded is decoded again.
use ssh_sign.Prelude.{
  ℕ, ◌+◌, ◌*◌, ◌/◌, ◌%◌, ◌<◌, ◌≡◌, refl, arith, Bool, true, false, not, ◌&&◌, [], ◌∷◌, some, ◌==◌,
  ltb, all,
}
use ssh_sign.Text.Bytes.{Bytes}
use ssh_sign.Text.Base64.{sextet, quads, digit, encode}

abbrev pub are_bytes : Bytes → Bool
are_bytes = all (λ c. ltb c 256)

sextet-digit : (n : ℕ) → n < 64 → sextet (digit n) ≡ some n
unfolding sextet digit
sextet-digit n h = ground arith

-- A digit is no padding.
digit-padding : (n : ℕ) → n < 64 → (digit n == b'=') ≡ false
unfolding digit
digit-padding n h = ground arith

-- Characters that stand on an armored line.
abbrev pub is_line_char : ℕ → Bool
is_line_char c = not (c == b'\n') && not (c == b'\r') && not (c == b'-')

digit-is_line_char : (n : ℕ) → n < 64 → is_line_char (digit n) ≡ true
unfolding digit
digit-is_line_char n h = ground arith

pub encode-is_line_char : (s : Bytes) → are_bytes s ≡ true → all is_line_char (encode s) ≡ true
unfolding encode
encode-is_line_char [] h = refl
encode-is_line_char (a ∷ []) h =
    rw (digit-is_line_char (a / 4) (ground arith), digit-is_line_char ((a % 4) * 16) (omega arith))
encode-is_line_char (a ∷ b ∷ []) h = rw (
  digit-is_line_char (a / 4) (ground arith),
  digit-is_line_char ((a % 4) * 16 + b / 16) (ground arith),
  digit-is_line_char ((b % 16) * 4) (omega arith),
)
encode-is_line_char (a ∷ b ∷ c ∷ s) h =
    rw
      (
        digit-is_line_char (a / 4) (ground arith),
        digit-is_line_char ((a % 4) * 16 + b / 16) (ground arith),
        digit-is_line_char ((b % 16) * 4 + c / 64) (ground arith),
        digit-is_line_char (c % 64) (omega arith),
      )
      (encode-is_line_char s (ground arith))

-- The bytes put together again from six bits each.
first_byte : (a b : ℕ) → b < 256 → (a / 4) * 4 + ((a % 4) * 16 + b / 16) / 16 ≡ a
first_byte a b h = omega arith

second_byte :
    (a b c : ℕ)
    → b < 256
    → c < 256
    → (((a % 4) * 16 + b / 16) % 16) * 16 + ((b % 16) * 4 + c / 64) / 4 ≡ b
second_byte a b c h l = omega arith

third_byte : (b c : ℕ) → c < 256 → (((b % 16) * 4 + c / 64) % 4) * 64 + c % 64 ≡ c
third_byte b c h = omega arith

pub quads-encode : (s : Bytes) → are_bytes s ≡ true → quads (encode s) ≡ some s
unfolding encode quads
quads-encode [] h = refl
quads-encode (a ∷ []) h =
    let x = sextet-digit (a / 4) (ground arith) in
    let y = sextet-digit ((a % 4) * 16) (omega arith) in
    let e : (a / 4) * 4 + ((a % 4) * 16) / 16 ≡ a = omega arith in rw (x, y) (rw e)
quads-encode (a ∷ b ∷ []) h =
    let small : b < 256 = ground arith in
    let x = sextet-digit (a / 4) (ground arith) in
    let y = sextet-digit ((a % 4) * 16 + b / 16) (omega arith) in
    let z = sextet-digit ((b % 16) * 4) (omega arith) in
    let p = digit-padding ((b % 16) * 4) (omega arith) in
    let e : (((a % 4) * 16 + b / 16) % 16) * 16 + ((b % 16) * 4) / 4 ≡ b = omega arith in
    rw (p, x, y, z) (rw (first_byte a b small, e))
quads-encode (a ∷ b ∷ c ∷ s) h =
    let small : b < 256 = ground arith in
    let little : c < 256 = ground arith in
    let x = sextet-digit (a / 4) (ground arith) in
    let y = sextet-digit ((a % 4) * 16 + b / 16) (omega arith) in
    let z = sextet-digit ((b % 16) * 4 + c / 64) (omega arith) in
    let w = sextet-digit (c % 64) (omega arith) in
    let p = digit-padding ((b % 16) * 4 + c / 64) (omega arith) in
    let q = digit-padding (c % 64) (omega arith) in
    let rest = quads-encode s (ground arith) in
    rw (p, q, x, y, z, w, rest)
      (rw (first_byte a b small, second_byte a b c small little, third_byte b c little))

-- ===== src/Text/Base64.antt =====
-- Go's `base64.StdEncoding`. Decoding: carriage returns and newlines are skipped, padding is
-- required, and the unused bits of the last byte are ignored.
pub mod RoundTrip
use ssh_sign.Prelude.{
  ℕ, ◌+◌, ◌-◌, ◌*◌, ◌/◌, ◌%◌, ◌&&◌, ◌||◌, [], ◌∷◌, Option, none, some, ◌==◌, leb, ltb,
  if◌then◌else◌, is_nil,
}
use ssh_sign.Text.Bytes.{Bytes}

pub sextet : ℕ → Option ℕ
sextet c =
    if leb b'A' c && leb c b'Z'
    then some (c - b'A')
    else if leb b'a' c && leb c b'z'
    then some (c - b'a' + 26)
    else if leb b'0' c && leb c b'9'
    then some (c - b'0' + 52)
    else if c == b'+'
    then some 62
    else if c == b'/'
    then some 63
    else none

infixl 5 ◌>>=◌
abbrev ◌>>=◌ {ℓ κ} : {A : Type ℓ} {B : Type κ} → Option A → (A → Option B) → Option B
none >>= f = none
some a >>= f = f a

unfoldable pub drop_newlines : Bytes → Bytes
drop_newlines [] = []
drop_newlines (c ∷ s) = if c == b'\r' || c == b'\n' then drop_newlines s else c ∷ drop_newlines s

-- One group of four; padding may stand in the last group only.
pub quads : Bytes → Option Bytes
quads [] = some []
quads (a ∷ b ∷ c ∷ d ∷ s) =
    let rest = quads s in
    if c == b'=' && d == b'=' && is_nil s
    then (do x ← sextet a; y ← sextet b; some ((x * 4 + y / 16) ∷ []))
    else if d == b'=' && is_nil s
    then (do
      x ← sextet a
      y ← sextet b
      z ← sextet c
      some ((x * 4 + y / 16) ∷ ((y % 16) * 16 + z / 4) ∷ []))
    else (do
      x ← sextet a
      y ← sextet b
      z ← sextet c
      w ← sextet d
      r ← rest
      some ((x * 4 + y / 16) ∷ ((y % 16) * 16 + z / 4) ∷ ((z % 4) * 64 + w) ∷ r))
quads _ = none

unfoldable pub decode : Bytes → Option Bytes
unfolding drop_newlines quads sextet
decode s = quads (drop_newlines s)

-- The character of six bits.
unfoldable pub digit : ℕ → ℕ
digit n =
    if ltb n 26
    then n + b'A'
    else if ltb n 52
    then n - 26 + b'a'
    else if ltb n 62
    then n - 52 + b'0'
    else if n == 62
    then b'+'
    else b'/'

-- `EncodeToString`
unfoldable pub encode : Bytes → Bytes
unfolding digit
encode [] = []
encode (a ∷ []) = digit (a / 4) ∷ digit ((a % 4) * 16) ∷ b'=' ∷ b'=' ∷ []
encode (a ∷ b ∷ []) =
    digit (a / 4) ∷ digit ((a % 4) * 16 + b / 16) ∷ digit ((b % 16) * 4) ∷ b'=' ∷ []
encode (a ∷ b ∷ c ∷ s) =
    digit (a / 4)
    ∷ digit ((a % 4) * 16 + b / 16)
    ∷ digit ((b % 16) * 4 + c / 64)
    ∷ digit (c % 64)
    ∷ encode s

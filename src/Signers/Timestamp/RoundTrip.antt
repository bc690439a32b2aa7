-- ===== src/Signers/Timestamp/RoundTrip.antt =====
-- A date and time in UTC that is written in digits is read back.
use ssh_sign.Prelude.{
  ℕ, ◌+◌, ◌/◌, ◌%◌, ◌<◌, ◌≡◌, refl, arith, true, false, ◌&&◌, [], ◌∷◌, some, ok, ltb, leb, init, ℤ,
}
use ssh_sign.Text.Bytes.{Bytes, trim, trim_left, trim_right}
use ssh_sign.Signers.Fields.{is_separator, trim_separators}
use ssh_sign.Signers.Timestamp.{
  Civil, take_number, days_in, in_range, parse_layout, parse_digits, parse_keygen_timestamp,
  utc_unix,
}

-- A digit's byte.
abbrev pub digit : ℕ → ℕ
digit n = n + b'0'

abbrev pub two : ℕ → Bytes → Bytes
two n s = digit (n / 10) ∷ digit (n % 10) ∷ s

abbrev pub four : ℕ → Bytes → Bytes
four n s = digit (n / 1000) ∷ digit (n / 100 % 10) ∷ digit (n / 10 % 10) ∷ digit (n % 10) ∷ s

-- `YYYYMMDDHHMMSS`
abbrev pub written : Civil → Bytes → Bytes
written c s = four c.year (two c.month (two c.day (two c.hour (two c.minute (two c.second s)))))

take_number-two : (n : ℕ) (s : Bytes) → n < 100 → take_number 2 0 (two n s) ≡ some (n, s)
unfolding take_number
take_number-two n s h = ground arith

take_number-four : (n : ℕ) (s : Bytes) → n < 10000 → take_number 4 0 (four n s) ≡ some (n, s)
unfolding take_number
take_number-four n s h = ground arith

-- The digits that a date and time takes, each field with the room that it needs.
pub record IsWritable (c : Civil) : Type 0 where
  pub ranged : in_range c ≡ true
  pub short_year : c.year < 10000

days_in-bound : (m y : ℕ) → days_in m y < 100
unfolding days_in
days_in-bound m y = ground arith

-- What the range says of the fields: each takes two digits.
two_digits :
    (mo d last h mi s : ℕ)
    → (leb 1 mo && leb mo 12 && leb 1 d && leb d last && ltb h 24 && ltb mi 60 && ltb s 60) ≡ true
    → last < 100
    → (mo < 100) × (d < 100) × (h < 100) × (mi < 100) × (s < 100)
two_digits mo d last h mi s r l = ground arith

parse_layout-written : (c : Civil) → IsWritable c → parse_layout true true (written c []) ≡ some c
unfolding parse_layout
parse_layout-written c w =
    let r = w.ranged in
    let (mo_small, d_small, h_small, mi_small, s_small) =
      two_digits c.month c.day (days_in c.month c.year) c.hour c.minute c.second r
        (days_in-bound c.month c.year) in
    let s4 = two c.second [] in
    let s3 = two c.minute s4 in
    let s2 = two c.hour s3 in
    let s1 = two c.day s2 in
    let y = take_number-four c.year (two c.month s1) w.short_year in
    let mo = take_number-two c.month s1 mo_small in
    let d = take_number-two c.day s2 d_small in
    let h = take_number-two c.hour s3 h_small in
    let mi = take_number-two c.minute s4 mi_small in
    let s = take_number-two c.second [] s_small in rw y (rw mo (rw d (rw h (rw mi (rw s (rw r))))))

init-written : (c : Civil) → init (written c (b'Z' ∷ [])) ≡ written c []
init-written c = refl

trim-written :
    (c : Civil) → c.year < 10000 → trim_separators (written c (b'Z' ∷ [])) ≡ written c (b'Z' ∷ [])
unfolding trim_separators trim trim_left trim_right
trim-written c l =
    let first : is_separator (digit (c.year / 1000)) ≡ false = ground arith in rw first

-- A date and time of the years 0 to 9999, written in 14 digits with a `Z` behind them, is read as
-- its instant in UTC, in whatever time zone the machine is.
pub parse_keygen_timestamp-written :
    (local : Civil → ℤ) (c : Civil)
    → IsWritable c
    → parse_keygen_timestamp local (written c (b'Z' ∷ []))
      ≡ ok (record { unix = utc_unix c; nsec = 0 })
unfolding parse_keygen_timestamp parse_digits
parse_keygen_timestamp-written local c w =
    let t = trim-written c w.short_year in let p = parse_layout-written c w in rw t (cc p)

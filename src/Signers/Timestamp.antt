-- ===== src/Signers/Timestamp.antt =====
-- pkg/allowedsigners/timeparse.go, and Go's `time.Time` as far as the program uses it.
pub mod RoundTrip
use ssh_sign.Prelude.{
  ℕ, zero, suc, ◌+◌, ◌-◌, ◌*◌, ◌/◌, ◌%◌, Bool, true, false, not, ◌&&◌, ◌||◌, [], ◌∷◌, Option, none,
  some, ◌==◌, leb, ltb, if◌then◌else◌, length, last?, init, is_nil, Result, ok, err, ℤ, sub_ℕ,
  negsuc, ltb_ℤ,
}
use ssh_sign.Text.Bytes.{Bytes}
use ssh_sign.Signers.Fields.{trim_separators}

-- An instant: seconds since 1970 and nanoseconds within the second.
pub record Time : Type 0 where
  pub unix : ℤ
  pub nsec : ℕ

-- `t.Before(u)`, and `t.After(u)` with the two exchanged
unfoldable pub before : Time → Time → Bool
before t u = ltb_ℤ t.unix u.unix || (not (ltb_ℤ u.unix t.unix) && ltb t.nsec u.nsec)

-- `t.IsZero()`: the first instant of year 1
unfoldable pub is_zero_time : Time → Bool
is_zero_time t =
    let zero_unix : ℤ = negsuc 62135596799 in
    not (ltb_ℤ t.unix zero_unix) && not (ltb_ℤ zero_unix t.unix) && t.nsec == 0

pub record Civil : Type 0 where
  pub year : ℕ
  pub month : ℕ
  pub day : ℕ
  pub hour : ℕ
  pub minute : ℕ
  pub second : ℕ

abbrev is_leap : ℕ → Bool
is_leap y = y % 4 == 0 && (not (y % 100 == 0) || y % 400 == 0)

-- Days of the year before a month, in a year that is not a leap year.
days_before : ℕ → ℕ
days_before m =
    if m == 1
    then 0
    else if m == 2
    then 31
    else if m == 3
    then 59
    else if m == 4
    then 90
    else if m == 5
    then 120
    else if m == 6
    then 151
    else if m == 7
    then 181
    else if m == 8
    then 212
    else if m == 9
    then 243
    else if m == 10
    then 273
    else if m == 11
    then 304
    else 334

unfoldable pub days_in : ℕ → ℕ → ℕ
days_in m y =
    if m == 2
    then (if is_leap y then 29 else 28)
    else if m == 4 || m == 6 || m == 9 || m == 11
    then 30
    else 31

-- Days from the first of January of year 0.
unfoldable pub day_number : ℕ → ℕ → ℕ → ℕ
unfolding days_before
day_number y m d =
    y * 365
    + (y + 3) / 4
    + (y + 399) / 400
    + days_before m
    + (if is_leap y && ltb 2 m then 1 else 0)
    + (d - 1)
    - (y + 99) / 100

-- Unix seconds of a date and time in UTC; 1970 begins 719528 days after year 0.
unfoldable pub utc_unix : Civil → ℤ
unfolding day_number
utc_unix c =
    sub_ℕ (day_number c.year c.month c.day * 86400 + c.hour * 3600 + c.minute * 60 + c.second)
      (719528 * 86400)

abbrev is_digit : ℕ → Bool
is_digit c = leb b'0' c && leb c b'9'

-- The first `k` bytes as a number, with what follows them.
unfoldable pub take_number : ℕ → ℕ → Bytes → Option (ℕ × Bytes)
take_number zero n s = some (n, s)
take_number (suc k) n [] = none
take_number (suc k) n (c ∷ s) =
    let rest = take_number k (n * 10 + (c - b'0')) s in if is_digit c then rest else none

infixl 5 ◌>>=◌
abbrev ◌>>=◌ {ℓ κ} : {A : Type ℓ} {B : Type κ} → Option A → (A → Option B) → Option B
none >>= f = none
some a >>= f = f a

-- The next two digits where the layout has the field, and 0 where it does not.
abbrev field : Bool → Bytes → Option (ℕ × Bytes)
field present s = if present then take_number 2 0 s else some (0, s)

abbrev pub in_range : Civil → Bool
in_range c =
    leb 1 c.month
    && leb c.month 12
    && leb 1 c.day
    && leb c.day (days_in c.month c.year)
    && ltb c.hour 24
    && ltb c.minute 60
    && ltb c.second 60

-- `time.ParseInLocation` for the three layouts, of which `clock` and `seconds` tell the parts.
unfoldable pub parse_layout : Bool → Bool → Bytes → Option Civil
unfolding take_number days_in
parse_layout clock seconds s = do
  (y, s1) ← take_number 4 0 s
  (mo, s2) ← take_number 2 0 s1
  (d, s3) ← take_number 2 0 s2
  (h, s4) ← field clock s3
  (mi, s5) ← field clock s4
  (sec, s6) ← field seconds s5
  let c : Civil = record { year = y; month = mo; day = d; hour = h; minute = mi; second = sec }
  if is_nil s6 && in_range c then some c else none

pub data TimeError : Type 0 where
  empty_timestamp : TimeError
  invalid_length : ℕ → TimeError
  bad_timestamp : Bytes → TimeError

-- `strings.HasSuffix(s, "Z")`
abbrev has_zulu : Bytes → Bool
has_zulu s = elim (last? s) [ none ↦ false | some c ↦ c == b'Z' ]

abbrev or_bad : Bytes → Option Civil → Result TimeError Civil
or_bad s none = err (bad_timestamp s)
or_bad s (some c) = ok c

unfoldable pub parse_digits : Bytes → Result TimeError Civil
unfolding parse_layout
parse_digits s =
    let n = length s in
    if n == 8
    then or_bad s (parse_layout false false s)
    else if n == 12
    then or_bad s (parse_layout true false s)
    else if n == 14
    then or_bad s (parse_layout true true s)
    else err (invalid_length n)

-- `local` is the Unix time that the machine's time zone gives a date and time.
unfoldable pub parse_keygen_timestamp : (Civil → ℤ) → Bytes → Result TimeError Time
unfolding parse_digits trim_separators
parse_keygen_timestamp local s =
    let t = trim_separators s in
    let utc = has_zulu t in
    if is_nil t then err empty_timestamp else elim (parse_digits (if utc then init t else t)) [
      | err e ↦ err e
      | ok c ↦ ok (record { unix = if utc then utc_unix c else local c; nsec = 0 })
    ]

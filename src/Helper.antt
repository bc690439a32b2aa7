-- ===== src/Helper.antt =====
-- internal/helper/timestamp.go: the timestamps of the command line. `parse_time` stands for
-- `time.Parse`, and `parse_local` for `time.ParseInLocation` in the local zone.
pub mod Zones
use ssh_sign.Prelude.{
  Bool, ◌||◌, List, [], ◌∷◌, Option, none, some, if◌then◌else◌, last?, Result, ok, err,
}
use ssh_sign.Text.Bytes.{Bytes, codes, bytes_eq}
use ssh_sign.Sshsig.PublicKey.{fields}
use ssh_sign.Signers.Timestamp.{Time}

pub data Layout : Type 0 where
  rfc3339_nano rfc3339 rfc1123z rfc1123 date_time date_only : Layout

pub data TimestampError : Type 0 where
  ambiguous_zone : Bytes → TimestampError
  no_accepted_format : TimestampError

abbrev pub Parser : Type 0
Parser = Layout → Bytes → Option Time

-- A loop over layouts up to the first that fits.
unfoldable pub first_of : (Layout → Option Time) → List Layout → Option Time
first_of read [] = none
first_of read (l ∷ ls) = elim (read l) [ none ↦ first_of read ls | some t ↦ some t ]

abbrev pub zoned_formats : List Layout
zoned_formats = rfc3339_nano ∷ rfc3339 ∷ rfc1123z ∷ []

abbrev pub local_formats : List Layout
local_formats = date_time ∷ date_only ∷ []

-- The last field. A text without one fits no layout.
abbrev pub zone_of : Bytes → Bytes
zone_of s = elim (last? (fields s)) [ none ↦ [] | some zone ↦ zone ]

abbrev pub is_utc : Bytes → Bool
is_utc zone = bytes_eq zone (codes "UTC") || bytes_eq zone (codes "GMT")

module _ (parse_time parse_local : Parser) where
  local_timestamp : Bytes → Result TimestampError Time
  unfolding first_of
  local_timestamp s = elim (first_of (λ l. parse_local l s) local_formats) [
    | none ↦ err no_accepted_format
    | some t ↦ ok t
  ]

  named_zone : Bytes → Result TimestampError Time
  unfolding local_timestamp
  named_zone s = elim (parse_time rfc1123 s) [
    | none ↦ local_timestamp s
    | some t ↦ if is_utc (zone_of s) then ok t else err (ambiguous_zone (zone_of s))
  ]

  unfoldable pub parse_timestamp : Bytes → Result TimestampError Time
  unfolding named_zone first_of
  parse_timestamp s = elim (first_of (λ l. parse_time l s) zoned_formats) [
    | none ↦ named_zone s
    | some t ↦ ok t
  ]

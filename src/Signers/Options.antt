-- ===== src/Signers/Options.antt =====
-- pkg/allowedsigners/parse.go: `parseOptions`.
use ssh_sign.Prelude.{
  Bool, true, not, List, [], ◌∷◌, Option, none, some, if◌then◌else◌, is_nil, Result, ok, err, ◌>>=◌,
  ℤ,
}
use ssh_sign.Text.Bytes.{Bytes, codes, bytes_eq, cut, split}
use ssh_sign.Signers.Fields.{trim_separators, split_options, FieldError}
use ssh_sign.Signers.Quote.{QuoteError, unquote_option_value}
use ssh_sign.Signers.Timestamp.{Time, before, Civil, TimeError, parse_keygen_timestamp}

-- An unset option is no restriction. The namespaces are unset if there is none: `strings.Split`
-- gives at least one.
pub record Options : Type 0 where
  pub namespaces : List Bytes
  pub valid_after : Option Time
  pub valid_before : Option Time

abbrev pub no_options : Options
no_options = record { namespaces = []; valid_after = none; valid_before = none }

pub data OptionError : Type 0 where
  split_failed : FieldError → OptionError
  empty_option : OptionError
  not_yet_supported : OptionError
  unknown_option : Bytes → OptionError
  bad_value : Bytes → QuoteError → OptionError
  multiple_clauses : Bytes → OptionError
  bad_time : Bytes → TimeError → OptionError
  unsupported_option : Bytes → OptionError
  not_after : OptionError

abbrev OptionResult : Type 0
OptionResult = Result OptionError Options

-- The `namespaces` case of the `switch`
set_namespaces : Bytes → Options → OptionResult
set_namespaces val o =
    if not (is_nil o.namespaces)
    then err (multiple_clauses (codes "namespaces"))
    else ok (record o { namespaces = split b',' val })

module _ (local : Civil → ℤ) where
  -- The two time cases: `old` is what the option holds so far, `store` sets it.
  set_time : Bytes → Option Time → Bytes → (Time → Options) → OptionResult
  set_time key (some t) val store = err (multiple_clauses key)
  set_time key none val store = elim (parse_keygen_timestamp local val) [
    | err e ↦ err (bad_time key e)
    | ok t ↦ ok (store t)
  ]

  -- The `switch` over the key; `k` is the key as it was written.
  set_option : Bytes → Bytes → Bytes → Options → OptionResult
  unfolding set_time set_namespaces
  set_option k key val o =
      if bytes_eq key (codes "namespaces")
      then set_namespaces val o
      else if bytes_eq key (codes "valid-after")
      then set_time key o.valid_after val (λ t. record o { valid_after = some t })
      else if bytes_eq key (codes "valid-before")
      then set_time key o.valid_before val (λ t. record o { valid_before = some t })
      else err (unsupported_option k)

  key_value : Bytes → Bytes → Options → OptionResult
  unfolding set_option
  key_value k v o = elim (unquote_option_value (trim_separators v)) [
    | err e ↦ err (bad_value (trim_separators k) e)
    | ok val ↦ set_option k (trim_separators k) val o
  ]

  -- One round of the loop over the parts.
  unfoldable pub option_part : Bytes → Options → OptionResult
  unfolding key_value
  option_part s o =
      let part = trim_separators s in
      if is_nil part
      then err empty_option
      else if bytes_eq part (codes "cert-authority")
      then err not_yet_supported
      else elim (cut b'=' part) [ none ↦ err (unknown_option part) | some (k, v) ↦ key_value k v o ]

  unfoldable pub option_parts : List Bytes → Options → OptionResult
  unfolding option_part
  option_parts [] o = ok o
  option_parts (s ∷ rest) o = do o' ← option_part s o; option_parts rest o'

  -- `validBefore.After(*validAfter)` where both are set
  abbrev times_fit : Option Time → Option Time → Bool
  times_fit (some a) (some b) = before a b
  times_fit none b = true
  times_fit (some a) none = true

  abbrev check_times : Options → OptionResult
  check_times o = if times_fit o.valid_after o.valid_before then ok o else err not_after

  unfoldable pub parse_options : Bytes → OptionResult
  unfolding option_parts
  parse_options s = if is_nil (trim_separators s) then ok no_options else elim (split_options s) [
    | err e ↦ err (split_failed e)
    | ok parts ↦ do o ← option_parts parts no_options; check_times o
  ]

-- ===== src/Signers/Line.antt =====
-- pkg/allowedsigners/parse.go and types.go: a line of an allowed signers file.
pub mod Sound
use ssh_sign.Prelude.{
  ℕ, zero, suc, Bool, true, false, not, ◌&&◌, ◌||◌, List, [], ◌∷◌, Option, none, some, ◌==◌, ltb,
  if◌then◌else◌, is_nil, length, Result, ok, err, map_err, guard, ◌>>=◌, ◌>>◌, ℤ,
}
use ssh_sign.Text.Bytes.{Bytes, bytes_eq}
use ssh_sign.Text.Utf8.{runes, glyphs, valid_string}
use ssh_sign.Ssh.{Ssh}
use ssh_sign.Sshsig.PublicKey.{KeyError, decode_key}
use ssh_sign.Signers.Fields.{FieldError, token_is_option, split_fields}
use ssh_sign.Signers.Quote.{QuoteError, unquote_principals}
use ssh_sign.Signers.Timestamp.{Civil}
use ssh_sign.Signers.Options.{Options, no_options, OptionError, parse_options}

pub record Entry (K : Type 0) : Type 0 where
  -- The file, empty for an unnamed reader
  pub source : Bytes
  pub line : ℕ
  pub principal : Bytes
  pub options : Options
  pub key_type : Bytes
  pub key_base64 : Bytes
  pub comment : Bytes
  pub public_key : K

-- What is wrong with a line.
pub data Reason : Type 0 where
  invalid_utf8 nul_byte carriage_return : Reason
  non_printable : ℕ → Reason
  bad_fields : FieldError → Reason
  too_few_fields missing_key_fields empty_principal : Reason
  bad_principals : QuoteError → Reason
  bad_options : OptionError → Reason
  invalid_key : KeyError → Reason
  type_mismatch : Bytes → Bytes → Reason

-- What Go's time zone database and Unicode tables say on the machine at hand.
pub record Machine : Type 0 where
  pub is_graphic : ℕ → Bool
  pub local : Civil → ℤ

check_rune : (ℕ → Bool) → Option ℕ → Result Reason (Unit {0})
check_rune is_graphic none = ok tt
check_rune is_graphic (some r) =
    if r == b'\t'
    then ok tt
    else if r == 0
    then err nul_byte
    else if r == b'\r'
    then err carriage_return
    else if not (is_graphic r)
    then err (non_printable r)
    else ok tt

unfoldable pub check_runes : (ℕ → Bool) → List (Option ℕ) → Result Reason (Unit {0})
unfolding check_rune
check_runes is_graphic [] = ok tt
check_runes is_graphic (r ∷ rs) = do check_rune is_graphic r; check_runes is_graphic rs

unfoldable pub validate_line_characters : (ℕ → Bool) → Bytes → Result Reason (Unit {0})
unfolding check_runes
validate_line_characters is_graphic line =
    if not (valid_string line) then err invalid_utf8 else check_runes is_graphic (runes line)

-- `fields[i]`; the callers have checked the index.
abbrev pub field_at : ℕ → List Bytes → Bytes
field_at i [] = []
field_at zero (x ∷ xs) = x
field_at (suc i) (x ∷ xs) = field_at i xs

-- Three fields, or four if the second looks like options.
abbrev pub field_count : List Bytes → ℕ
field_count head = if token_is_option (field_at 1 head) then 4 else 3

module _ (m : Machine) (ssh : Ssh) where
  open ssh use {PublicKey}

  -- The options field, if there is one, and the index of the key type.
  unfoldable pub line_options : List Bytes → Result Reason (Options × ℕ)
  line_options fields =
      if token_is_option (field_at 1 fields)
      then map_err bad_options (do o ← parse_options m.local (field_at 1 fields); ok (o, 2))
      else ok (no_options, 1)

  unfoldable pub line_key : Bytes → Bytes → Result Reason PublicKey
  line_key stated enc = do
    pk ← map_err invalid_key (decode_key ssh enc)
    guard (bytes_eq (ssh.key_type pk) stated) (type_mismatch stated (ssh.key_type pk))
    ok pk

  -- What `parseLine` does with the fields that it has split off.
  unfoldable pub line_entry : ℕ → List Bytes → Bytes → Result Reason (Entry PublicKey)
  unfolding line_options line_key
  line_entry n fields comment = do
    principal ← map_err bad_principals (unquote_principals (field_at 0 fields))
    guard (not (is_nil principal)) empty_principal
    (options, idx) ← line_options fields
    guard (ltb (suc idx) (length fields)) missing_key_fields
    pk ← line_key (field_at idx fields) (field_at (suc idx) fields)
    ok (record {
      source = [];
      line = n;
      principal = principal;
      options = options;
      key_type = field_at idx fields;
      key_base64 = field_at (suc idx) fields;
      comment = comment;
      public_key = pk;
    })

  unfoldable pub parse_line : ℕ → Bytes → Result Reason (Entry PublicKey)
  unfolding line_entry
  parse_line n line = do
    (head, rest) ← map_err bad_fields (split_fields line 2)
    guard (not (ltb (length head) 2)) too_few_fields
    (fields, comment) ← map_err bad_fields (split_fields line (field_count head))
    guard (not (ltb (length fields) (field_count head))) missing_key_fields
    line_entry n fields comment

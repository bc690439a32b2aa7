-- ===== src/Signers/Fields.antt =====
-- pkg/allowedsigners/parse.go: splitting a line into fields and an options field into options.
-- An index into the string is the rest of it from there on.
pub mod Total
pub mod Plain
pub mod Join
use ssh_sign.Prelude.{
  ℕ, zero, suc, Bool, true, false, not, ◌&&◌, ◌||◌, List, [], ◌∷◌, ◌++◌, ◌==◌, if◌then◌else◌,
  length, is_nil, any, Result, ok, err,
}
use ssh_sign.Text.Bytes.{Bytes, codes, bytes_eq, mem_byte, contains_any, trim, trim_left}

abbrev pub whitespace : Bytes
whitespace = codes " \t"

abbrev pub is_separator : ℕ → Bool
is_separator c = mem_byte c whitespace

unfoldable pub trim_separators : Bytes → Bytes
unfolding trim
trim_separators s = trim is_separator s

-- `out_of_fuel` belongs to the model only.
pub data FieldError : Type 0 where
  unterminated_quote out_of_fuel : FieldError

-- `isEscapedQuote` at the front of the rest of the string
abbrev pub is_escaped_quote : Bytes → Bool
is_escaped_quote [] = false
is_escaped_quote (c ∷ []) = false
is_escaped_quote (c ∷ d ∷ s) = c == b'\\' && d == b'"'

unfoldable pub token_is_option : Bytes → Bool
unfolding bytes_eq contains_any
token_is_option s =
    if bytes_eq s (codes "cert-authority") then true else contains_any s (codes "\",=")

-- `flush` of `splitFields`: an empty field is not recorded.
abbrev pub flush_field : Bytes → List Bytes → List Bytes
flush_field b out = if is_nil b then out else out ++ b ∷ []

abbrev pub Fields : Type 0
Fields = Result FieldError (List Bytes × Bytes)

-- What the loop does at a byte that is no escaped quote; `go` is the loop on what follows.
unfoldable pub field_byte :
    ℕ
    → Bool
    → Bytes
    → List Bytes
    → ℕ
    → Bytes
    → (Bool → Bytes → List Bytes → Bytes → Fields)
    → Fields
field_byte limit in_quote b out c s go =
    if c == b'"'
    then go (not in_quote) (b ++ c ∷ []) out s
    else if not in_quote && is_separator c
    then (if length (flush_field b out) == limit
        then ok (flush_field b out, trim_left is_separator s)
        else go in_quote [] (flush_field b out) (trim_left is_separator s))
    else go in_quote (b ++ c ∷ []) out s

unfoldable pub fields_loop : ℕ → ℕ → Bool → Bytes → List Bytes → Bytes → Fields
unfolding field_byte
fields_loop limit fuel in_quote b out [] =
    if in_quote then err unterminated_quote else ok (flush_field b out, [])
fields_loop limit zero in_quote b out (c ∷ s) = err out_of_fuel
fields_loop limit (suc f) in_quote b out (c ∷ []) =
    field_byte limit in_quote b out c [] (fields_loop limit f)
fields_loop limit (suc f) in_quote b out (c ∷ d ∷ s) =
    let escaped = fields_loop limit f in_quote (b ++ c ∷ d ∷ []) out s in
    if in_quote && is_escaped_quote (c ∷ d ∷ s)
    then escaped
    else field_byte limit in_quote b out c (d ∷ s) (fields_loop limit f)

-- Each round reads at least one byte.
unfoldable pub split_fields : Bytes → ℕ → Fields
unfolding fields_loop trim_left
split_fields line limit = fields_loop limit (length line) false [] [] line

-- `splitOptions`: an empty option is recorded, and the quotes stay in place.
unfoldable pub options_loop : Bool → Bytes → List Bytes → Bytes → Result FieldError (List Bytes)
options_loop in_quote b out [] = if in_quote then err unterminated_quote else ok (out ++ b ∷ [])
options_loop in_quote b out (c ∷ []) =
    if c == b'"'
    then (if not in_quote then err unterminated_quote else ok (out ++ (b ++ c ∷ []) ∷ []))
    else if not in_quote && c == b','
    then ok ((out ++ b ∷ []) ++ [] ∷ [])
    else (if in_quote then err unterminated_quote else ok (out ++ (b ++ c ∷ []) ∷ []))
options_loop in_quote b out (c ∷ d ∷ s) =
    let escaped = options_loop in_quote (b ++ c ∷ d ∷ []) out s in
    let quoted = options_loop (not in_quote) (b ++ c ∷ []) out (d ∷ s) in
    let flushed = options_loop in_quote [] (out ++ b ∷ []) (d ∷ s) in
    let plain = options_loop in_quote (b ++ c ∷ []) out (d ∷ s) in
    if in_quote && is_escaped_quote (c ∷ d ∷ s)
    then escaped
    else if c == b'"'
    then quoted
    else if not in_quote && c == b','
    then flushed
    else plain

unfoldable pub split_options : Bytes → Result FieldError (List Bytes)
unfolding options_loop
split_options s = options_loop false [] [] s

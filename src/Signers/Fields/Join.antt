-- ===== src/Signers/Fields/Join.antt =====
-- Splitting an options field loses nothing: the pieces, joined by commas, are the field.
use ssh_sign.Prelude.{List, [], ◌∷◌, ◌++◌, ◌≡◌, Result, ok, err}
use ssh_sign.Text.Bytes.{Bytes}
use ssh_sign.Signers.Fields.{FieldError}

abbrev pub join : List Bytes → Bytes
join [] = []
join (p ∷ []) = p
join (p ∷ q ∷ ps) = p ++ b',' ∷ join (q ∷ ps)

-- The pieces so far, then the open one.
abbrev joined : List Bytes → Bytes → Bytes
joined [] b = b
joined (p ∷ ps) b = p ++ b',' ∷ joined ps b

-- What the pieces are joined to, if the loop ends well.
abbrev Joins : Bytes → Result FieldError (List Bytes) → Type 0
Joins whole (ok ps) = join ps ≡ whole
Joins whole (err e) = Unit

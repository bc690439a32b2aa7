-- ===== src/Sshsig/PublicKey.antt =====
-- pkg/sshsig/publickey.go: parsing and comparing public keys.
use ssh_sign.Prelude.{Bool, List, [], ◌∷◌, ◌++◌, none, some, if◌then◌else◌, Result, ok, err, ◌>>=◌}
use ssh_sign.Text.Bytes.{Bytes, bytes_eq, mem_byte}
use ssh_sign.Text.Utf8.{Glyph, glyphs, is_space}
use ssh_sign.Text.Base64.{decode}
use ssh_sign.Ssh.{Ssh}

pub data KeyError : Type 0 where
  no_token : Bytes → KeyError
  no_key_token : Bytes → KeyError
  bad_base64 : Bytes → KeyError
  bad_key : Bytes → Bytes → KeyError
  type_mismatch : Bytes → Bytes → KeyError

abbrev flush : Bytes → List Bytes → List Bytes
flush [] rest = rest
flush (c ∷ b) rest = (c ∷ b) ∷ rest

fields_onto : Bytes → List Glyph → List Bytes
fields_onto b [] = flush b []
fields_onto b (g ∷ gs) =
    if is_space g.rune then flush b (fields_onto [] gs) else fields_onto (b ++ g.raw) gs

-- `strings.Fields`
unfoldable pub fields : Bytes → List Bytes
unfolding fields_onto glyphs is_space
fields s = fields_onto [] (glyphs s)

module _ (ssh : Ssh) where
  open ssh use {PublicKey, key_type, marshal_key, parse_public_key}

  unfoldable pub public_key_equal : PublicKey → PublicKey → Bool
  public_key_equal a b = bytes_eq (marshal_key a) (marshal_key b)

  unfoldable pub decode_key : Bytes → Result KeyError PublicKey
  decode_key enc = elim (decode enc) [
    | none ↦ err (bad_base64 enc)
    | some dec ↦ elim (parse_public_key dec) [ ok pk ↦ ok pk | err msg ↦ err (bad_key enc msg) ]
  ]

  -- The key's own type has to be the stated one.
  unfoldable pub check_type : Bytes → PublicKey → Result KeyError PublicKey
  check_type stated pk =
      if bytes_eq (key_type pk) stated then ok pk else err (type_mismatch stated (key_type pk))

  -- A first token with a dash is a key type; `rest` are the tokens behind it.
  key_tokens : Bytes → Bytes → List Bytes → Result KeyError PublicKey
  unfolding decode_key check_type
  key_tokens line first [] =
      if mem_byte b'-' first then err (no_key_token line) else decode_key first
  key_tokens line first (second ∷ rest) =
      if mem_byte b'-' first
      then (do pk ← decode_key second; check_type first pk)
      else decode_key first

  unfoldable pub parse_public_key_line : Bytes → Result KeyError PublicKey
  unfolding key_tokens
  parse_public_key_line line = elim (fields line) [
    | [] ↦ err (no_token line)
    | first ∷ rest ↦ key_tokens line first rest
  ]

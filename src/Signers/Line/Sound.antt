-- ===== src/Signers/Line/Sound.antt =====
-- What holds of every entry that `parse_line` returns.
use ssh_sign.Prelude.{
  ℕ, suc, false, not, List, [], ◌≡◌, ◌∙◌, arith, is_nil, length, ltb, ok, map_err, >>=-eq-ok,
  guard-eq-ok, map_err-eq-ok,
}
use ssh_sign.Text.Bytes.{Bytes, bytes_eq, bytes_eq_iff}
use ssh_sign.Ssh.{Ssh}
use ssh_sign.Sshsig.PublicKey.{decode_key}
use ssh_sign.Signers.Fields.{split_fields}
use ssh_sign.Signers.Quote.{unquote_principals}
use ssh_sign.Signers.Line.{
  Entry, Machine, field_at, field_count, line_options, line_key, line_entry, parse_line, bad_fields,
  bad_principals, invalid_key,
}

module _ (m : Machine) (ssh : Ssh) where
  -- The entry's key is the one that its text encodes, of the type that the line states; it names
  -- a principal and its line, and no file.
  pub record IsEntry (n : ℕ) (ent : Entry ssh.PublicKey) : Type 0 where
    pub line_is : ent.line ≡ n
    pub unnamed : ent.source ≡ []
    pub named : is_nil ent.principal ≡ false
    pub decoded : decode_key ssh ent.key_base64 ≡ ok ent.public_key
    pub typed : ssh.key_type ent.public_key ≡ ent.key_type

  line_key-ok :
      (stated enc : Bytes) (pk : ssh.PublicKey)
      → line_key m ssh stated enc ≡ ok pk
      → (decode_key ssh enc ≡ ok pk) × (ssh.key_type pk ≡ stated)
  unfolding line_key
  line_key-ok stated enc pk h =
      let (k, e, h1) = >>=-eq-ok (map_err invalid_key (decode_key ssh enc)) _ h in
      let (t, h2) = guard-eq-ok (bytes_eq (ssh.key_type k) stated) _ _ h1 in
      let same : k ≡ pk = cc in
      (map_err-eq-ok invalid_key _ e ∙ rw same, rw (← same) ((bytes_eq_iff _ _).0 t))

  line_entry-IsEntry :
      (n : ℕ) (fields : List Bytes) (comment : Bytes) (ent : Entry ssh.PublicKey)
      → line_entry m ssh n fields comment ≡ ok ent
      → IsEntry n ent
  unfolding line_entry
  line_entry-IsEntry n fields comment ent h =
      let (p, e, h1) =
        >>=-eq-ok (map_err bad_principals (unquote_principals (field_at 0 fields))) _ h in
      let (named, h2) = guard-eq-ok (not (is_nil p)) _ _ h1 in
      let ((o, idx), eo, h3) = >>=-eq-ok (line_options m ssh fields) _ h2 in
      let (room, h4) = guard-eq-ok (ltb (suc idx) (length fields)) _ _ h3 in
      let (pk, ek, h5) =
        >>=-eq-ok (line_key m ssh (field_at idx fields) (field_at (suc idx) fields)) _ h4 in
      let (decoded, typed) = line_key-ok _ _ pk ek in ground (arith, h5, named, decoded, typed)

  -- An entry that a line yields keeps the line's number and names no file, has a principal, and
  -- its key is the one that the base64 text decodes to, of the type that the entry states.
  pub parse_line-IsEntry :
      (n : ℕ) (line : Bytes) (ent : Entry ssh.PublicKey)
      → parse_line m ssh n line ≡ ok ent
      → IsEntry n ent
  unfolding parse_line
  parse_line-IsEntry n line ent h =
      let ((head, rest), e, h1) = >>=-eq-ok (map_err bad_fields (split_fields line 2)) _ h in
      let (_, h2) = guard-eq-ok (not (ltb (length head) 2)) _ _ h1 in
      let ((fields, comment), e', h3) =
        >>=-eq-ok (map_err bad_fields (split_fields line (field_count head))) _ h2 in
      let (_, h4) = guard-eq-ok (not (ltb (length fields) (field_count head))) _ _ h3 in
      line_entry-IsEntry n fields comment ent h4

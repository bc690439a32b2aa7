-- ===== src/Signers/File/Parts.antt =====
-- A file may be read in parts, and every line of it is accounted for.
use ssh_sign.Prelude.{
  ℕ, suc, ◌+◌, List, [], ◌∷◌, ◌++◌, ◌≡◌, refl, sym, ◌∙◌, ap, arith, length, is_nil, append-nil,
  append_assoc, Result, ok, err, Bool-cases, inl, inr,
}
use ssh_sign.Text.Bytes.{Bytes, codes, has_prefix}
use ssh_sign.Ssh.{Ssh}
use ssh_sign.Signers.Fields.{trim_separators}
use ssh_sign.Signers.Line.{Entry, Reason, Machine, validate_line_characters, parse_line}
use ssh_sign.Signers.File.{
  ParseError, File, empty_file, skip, append, record_errors, add_result, content_line, file_line,
  file_lines,
}
use ssh_sign.Signers.File.Bounds.{
  IsCounted, empty-IsCounted, skip-IsCounted, add_result-IsCounted, length-record_errors,
  record_error_assoc,
}

module _ {K : Type 0} where
  -- Where two files each count their malformed lines and record the first 64 of them, so does the
  -- file that joins them.
  pub append-IsCounted : (f g : File K) → IsCounted f → IsCounted g → IsCounted (append f g)
  unfolding append
  append-IsCounted f g v w = grind (arith, length-record_errors f.skipped g.skipped)

  skip-append :
      (f g : File K) (e : ParseError) → IsCounted f → skip (append f g) e ≡ append f (skip g e)
  unfolding skip append
  skip-append f g e v =
      let same = record_error_assoc f.skipped g.skipped e (omega arith) in ground (arith, same)

  add_result-append :
      (f g : File K) (n : ℕ) (r : Result Reason (Entry K))
      → IsCounted f
      → add_result (append f g) n r ≡ append f (add_result g n r)
  add_result-append f g n (ok e) v =
      unfold append in ground (arith, append_assoc f.entries g.entries (e ∷ []))
  add_result-append f g n (err msg) v = skip-append f g _ v

  append-empty : (f : File K) → append f (empty_file K) ≡ f
  unfolding append record_errors
  append-empty f = ground (arith, append-nil f.entries)

module _ (m : Machine) (ssh : Ssh) where
  abbrev SignersFile : Type 0
  SignersFile = File ssh.PublicKey

  content-append :
      (f g : SignersFile) (n : ℕ) (t : Bytes)
      → IsCounted f
      → content_line m ssh (append f g) n t ≡ append f (content_line m ssh g n t)
  content-append f g n t v = elim (Bool-cases (is_nil t)) [
    | inl blank ↦ rw blank
    | inr text ↦ elim (Bool-cases (has_prefix t (codes "#"))) [
      | inl comment ↦ rw (text, comment)
      | inr plain ↦ rw (text, plain) (add_result-append f g n (parse_line m ssh n t) v)
    ]
  ]

  content-IsCounted :
      (f : SignersFile) (n : ℕ) (t : Bytes) → IsCounted f → IsCounted (content_line m ssh f n t)
  content-IsCounted f n t v = elim (Bool-cases (is_nil t)) [
    | inl blank ↦ rw blank v
    | inr text ↦ elim (Bool-cases (has_prefix t (codes "#"))) [
      | inl comment ↦ rw (text, comment) v
      | inr plain ↦ rw (text, plain) (add_result-IsCounted n (parse_line m ssh n t) v)
    ]
  ]

  -- The characters of a line are in order, or there is a reason why not.
  line-append :
      (f g : SignersFile) (n : ℕ) (line : Bytes)
      → IsCounted f
      → file_line m ssh (append f g) n line ≡ append f (file_line m ssh g n line)
  unfolding file_line
  line-append f g n line v = go (validate_line_characters m.is_graphic line) refl
    where
      go :
          (r : Result Reason (Unit {0}))
          → validate_line_characters m.is_graphic line ≡ r
          → file_line m ssh (append f g) n line ≡ append f (file_line m ssh g n line)
      go (ok _) e = rw (e, file_line) (content-append f g n (trim_separators line) v)
      go (err msg) e = rw (e, file_line) (skip-append f g _ v)

  line-IsCounted :
      (f : SignersFile) (n : ℕ) (line : Bytes) → IsCounted f → IsCounted (file_line m ssh f n line)
  unfolding file_line
  line-IsCounted f n line v = go (validate_line_characters m.is_graphic line) refl
    where
      go :
          (r : Result Reason (Unit {0}))
          → validate_line_characters m.is_graphic line ≡ r
          → IsCounted (file_line m ssh f n line)
      go (ok _) e = rw (e, file_line) (content-IsCounted f n (trim_separators line) v)
      go (err msg) e = rw (e, file_line) (skip-IsCounted _ v)

  lines-IsCounted :
      (f : SignersFile) (n : ℕ) (ls : List Bytes)
      → IsCounted f
      → IsCounted (file_lines m ssh f n ls)
  unfolding file_lines
  lines-IsCounted f n [] v = v
  lines-IsCounted f n (l ∷ ls) v =
      lines-IsCounted (file_line m ssh f (n + 1) l) (n + 1) ls (line-IsCounted f (n + 1) l v)

  lines-append :
      (f g : SignersFile) (n : ℕ) (ls : List Bytes)
      → IsCounted f
      → file_lines m ssh (append f g) n ls ≡ append f (file_lines m ssh g n ls)
  unfolding file_lines
  lines-append f g n [] v = refl
  lines-append f g n (l ∷ ls) v =
      rw (line-append f g (n + 1) l v) (lines-append f (file_line m ssh g (n + 1) l) (n + 1) ls v)

  lines-concat :
      (f : SignersFile) (n : ℕ) (ls ms : List Bytes)
      → file_lines m ssh f n (ls ++ ms)
        ≡ file_lines m ssh (file_lines m ssh f n ls) (n + length ls) ms
  unfolding file_lines
  lines-concat f n [] ms = let same : n + 0 ≡ n = omega arith in rw same
  lines-concat f n (l ∷ ls) ms =
      let same : n + suc (length ls) ≡ n + 1 + length ls = omega arith in
      rw same (lines-concat (file_line m ssh f (n + 1) l) (n + 1) ls ms)

  -- Reading two runs of lines one after the other gives what `Append` makes of the two read apart,
  -- the second from the number that its first line has behind the others.
  pub file_lines-append :
      (n : ℕ) (ls ms : List Bytes)
      → file_lines m ssh (empty_file ssh.PublicKey) n (ls ++ ms)
        ≡ append
            (file_lines m ssh (empty_file ssh.PublicKey) n ls)
            (file_lines m ssh (empty_file ssh.PublicKey) (n + length ls) ms)
  file_lines-append n ls ms =
      let first = file_lines m ssh (empty_file ssh.PublicKey) n ls in
      let counted = lines-IsCounted (empty_file ssh.PublicKey) n ls empty-IsCounted in
      lines-concat (empty_file ssh.PublicKey) n ls ms
      ∙ ap (λ f. file_lines m ssh f (n + length ls) ms) (sym (append-empty first))
      ∙ lines-append first (empty_file ssh.PublicKey) (n + length ls) ms counted

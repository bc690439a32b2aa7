-- ===== src/Signers/File.antt =====
-- pkg/allowedsigners/parse.go and types.go: reading a file, and joining files.
pub mod Bounds
pub mod Parts
use ssh_sign.Prelude.{
  ℕ, ◌+◌, ◌*◌, ◌^◌, Bool, List, [], ◌∷◌, ◌++◌, Option, none, some, ◌==◌, ltb, if◌then◌else◌, is_nil,
  length, map, Result, ok, err,
}
use ssh_sign.Text.Bytes.{Bytes, codes, has_prefix}
use ssh_sign.Text.Scan.{Reader, ScanError, scan_lines}
use ssh_sign.Ssh.{Ssh}
use ssh_sign.Signers.Fields.{trim_separators}
use ssh_sign.Signers.Line.{Entry, Reason, Machine, validate_line_characters, parse_line}

abbrev pub max_line_size : ℕ
max_line_size = 4 * 2 ^ 20

abbrev pub max_skipped_recorded : ℕ
max_skipped_recorded = 64

pub record ParseError : Type 0 where
  pub source : Bytes
  pub line : ℕ
  pub msg : Reason

pub record File (K : Type 0) : Type 0 where
  pub entries : List (Entry K)
  pub skipped : List ParseError
  pub skipped_count : ℕ

abbrev pub empty_file : (K : Type 0) → File K
empty_file K = record { entries = []; skipped = []; skipped_count = 0 }

-- An error is recorded while there is room.
abbrev pub record_error : List ParseError → ParseError → List ParseError
record_error skipped e =
    if ltb (length skipped) max_skipped_recorded then skipped ++ e ∷ [] else skipped

unfoldable pub record_errors : List ParseError → List ParseError → List ParseError
record_errors skipped [] = skipped
record_errors skipped (e ∷ es) = record_errors (record_error skipped e) es

module _ {K : Type 0} where
  unfoldable pub skip : File K → ParseError → File K
  skip f e = record f { skipped = record_error f.skipped e; skipped_count = f.skipped_count + 1 }

  unfoldable pub append : File K → File K → File K
  unfolding record_errors
  append f g = record {
    entries = f.entries ++ g.entries;
    skipped = record_errors f.skipped g.skipped;
    skipped_count = f.skipped_count + g.skipped_count;
  }

  abbrev pub add_entry : File K → Entry K → File K
  add_entry f e = record f { entries = f.entries ++ e ∷ [] }

  -- A malformed line is skipped, and a well-formed one is an entry.
  abbrev pub add_result : File K → ℕ → Result Reason (Entry K) → File K
  add_result f n (ok e) = add_entry f e
  add_result f n (err msg) = skip f (record { source = []; line = n; msg = msg })

  -- `ParseSource` names the file in what `Parse` has found.
  unfoldable pub with_source : Bytes → File K → File K
  with_source source f = record f {
    entries = map (λ (e : Entry K). record e { source = source }) f.entries;
    skipped = map (λ (e : ParseError). record e { source = source }) f.skipped;
  }

module _ (m : Machine) (ssh : Ssh) where
  -- A line that is neither blank nor a comment, once it is trimmed.
  abbrev pub content_line : File ssh.PublicKey → ℕ → Bytes → File ssh.PublicKey
  content_line f n t =
      if is_nil t
      then f
      else if has_prefix t (codes "#")
      then f
      else add_result f n (parse_line m ssh n t)

  -- One round of the loop: `n` is the number of the line.
  unfoldable pub file_line : File ssh.PublicKey → ℕ → Bytes → File ssh.PublicKey
  unfolding skip
  file_line f n line = elim (validate_line_characters m.is_graphic line) [
    | err msg ↦ skip f (record { source = []; line = n; msg = msg })
    | ok _ ↦ content_line f n (trim_separators line)
  ]

  unfoldable pub file_lines : File ssh.PublicKey → ℕ → List Bytes → File ssh.PublicKey
  unfolding file_line
  file_lines f n [] = f
  file_lines f n (line ∷ lines) = file_lines (file_line f (n + 1) line) (n + 1) lines

  unfoldable pub parse_with_max : ℕ → Reader → Result ScanError (File ssh.PublicKey)
  unfolding file_lines scan_lines
  parse_with_max max r =
      let f = file_lines (empty_file ssh.PublicKey) 0 (scan_lines max r).lines in
      elim ((scan_lines max r).error) [ none ↦ ok f | some e ↦ err e ]

  unfoldable pub parse : Reader → Result ScanError (File ssh.PublicKey)
  parse = parse_with_max max_line_size

  unfoldable pub parse_source : Reader → Bytes → Result ScanError (File ssh.PublicKey)
  unfolding parse with_source
  parse_source r source = elim (parse r) [ err e ↦ err e | ok f ↦ ok (with_source source f) ]

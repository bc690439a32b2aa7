-- ===== src/Cmd/Inputs.antt =====
-- internal/cmd/config.go and signature_stdin.go: reading the signers files within a limit, and a
-- signature from standard input.
pub mod Limits
use ssh_sign.Prelude.{
  ℕ, ◌+◌, ◌-◌, ◌^◌, Bool, true, false, not, ◌&&◌, ◌||◌, List, [], ◌∷◌, Option, none, some, ◌==◌,
  ltb, if◌then◌else◌, is_nil, last?, take, length, Result, ok, err, guard, ◌>>=◌, ◌>>◌,
}
use ssh_sign.Text.Bytes.{Bytes, codes, mem_byte, trim_left}
use ssh_sign.Text.Scan.{Reader}
use ssh_sign.Sshsig.Armored.{read_limited, max_signature_armor_size}

pub data InputError : Type 0 where
  unreadable : Bytes → Bytes → InputError
  signers_exceed : ℕ → Bytes → InputError
  too_large : ℕ → InputError
  too_much_space not_at_line_start : InputError
  failed_read : Bytes → InputError

-- A file that has been opened and checked, by its path.
pub record SignersFile : Type 0 where
  pub path : Bytes
  pub reader : Reader

-- `readSignersFile`: at most one byte beyond the limit.
unfoldable pub read_signers_file : SignersFile → ℕ → Result InputError Bytes
unfolding read_limited
read_signers_file f limit = elim (read_limited (limit + 1) f.reader) [
  | err e ↦ err (unreadable f.path e)
  | ok content ↦ ok content
]

-- The loop of `readSignersFiles`: the contents by path. `remaining` is what the limit leaves.
unfoldable pub read_signers_files :
    ℕ → ℕ → List SignersFile → Result InputError (List (Bytes × Bytes))
unfolding read_signers_file
read_signers_files limit remaining [] = ok []
read_signers_files limit remaining (f ∷ fs) = elim (read_signers_file f remaining) [
  | err e ↦ err e
  | ok content ↦ if ltb remaining (length content) then err (signers_exceed limit f.path) else (do
    rest ← read_signers_files limit (remaining - length content) fs
    ok ((f.path, content) ∷ rest))
]

abbrev pub max_whitespace : ℕ
max_whitespace = 1024

abbrev pub is_blank : ℕ → Bool
is_blank c = mem_byte c (codes " \t\r\n")

-- The byte before the header, if there is one, ends a line.
abbrev pub ends_line : Bytes → Bool
ends_line leading = elim (last? leading) [ none ↦ true | some c ↦ c == b'\n' ]

-- What `signatureStdinReader` delivers: the data without the leading white space.
unfoldable pub stdin_signature : Reader → Result InputError Bytes
unfolding read_limited trim_left
stdin_signature r = elim (read_limited (max_signature_armor_size + 1) r) [
  | err e ↦ err (failed_read e)
  | ok content ↦
      let body = trim_left is_blank content in
      let start = length content - length body in
      if ltb max_signature_armor_size (length content)
      then err (too_large max_signature_armor_size)
      else if start == length content
      then ok []
      else (do
        guard (not (ltb max_whitespace start)) too_much_space
        guard (ends_line (take start content)) not_at_line_start
        ok body)
]

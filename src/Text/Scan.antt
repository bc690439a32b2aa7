-- ===== src/Text/Scan.antt =====
-- Go's readers and `bufio.Scanner` splitting into lines.
use ssh_sign.Prelude.{
  ℕ, List, [], ◌∷◌, ◌++◌, Option, none, some, ◌==◌, leb, if◌then◌else◌, length, last?, init,
}
use ssh_sign.Text.Bytes.{Bytes}

-- What a reader delivers: its bytes, and the error that ends them if it is not `io.EOF`.
pub record Reader : Type 0 where
  pub content : Bytes
  pub failure : Option Bytes

-- `bufio.ErrTooLong`, or the reader's own error.
pub data ScanError : Type 0 where
  too_long : ScanError
  read_failed : Bytes → ScanError

-- The lines that `Scan` delivers, and what `Err` reports after the last.
pub record Scanned : Type 0 where
  pub lines : List Bytes
  pub error : Option ScanError

-- `bufio.ScanLines` drops one carriage return at the end of a line.
unfoldable pub drop_cr : Bytes → Bytes
drop_cr line = elim (last? line) [ none ↦ line | some c ↦ if c == b'\r' then init line else line ]

abbrev add_line : Bytes → Scanned → Scanned
add_line line s = record { lines = line ∷ s.lines; error = s.error }

-- With a buffer of `max + 1` bytes a line of more than `max` bytes does not fit.
scan_onto : ℕ → Option ScanError → Bytes → Bytes → Scanned
scan_onto max failure [] [] = record { lines = []; error = failure }
scan_onto max failure (c ∷ line) [] = record { lines = drop_cr (c ∷ line) ∷ []; error = failure }
scan_onto max failure line (c ∷ rest) =
    let done = scan_onto max failure [] rest in
    let more = scan_onto max failure (line ++ c ∷ []) rest in
    if c == b'\n'
    then add_line (drop_cr line) done
    else if leb max (length line)
    then record { lines = []; error = some too_long }
    else more

read_error : Option Bytes → Option ScanError
read_error none = none
read_error (some e) = some (read_failed e)

unfoldable pub scan_lines : ℕ → Reader → Scanned
unfolding scan_onto drop_cr read_error
scan_lines max r = scan_onto max (read_error r.failure) [] r.content

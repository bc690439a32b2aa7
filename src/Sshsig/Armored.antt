-- ===== src/Sshsig/Armored.antt =====
-- pkg/sshsig/signature.go: reading an armored signature. `decode_pem` stands for the standard
-- library's `pem.Decode`: the block found, and the bytes behind it.
use ssh_sign.Prelude.{
  ℕ, ◌+◌, ◌-◌, ◌^◌, Bool, not, Option, none, some, ◌==◌, leb, if◌then◌else◌, is_nil, length, take,
  drop, Result, ok, err, map_err, guard, ◌>>=◌, ◌>>◌,
}
use ssh_sign.Text.Bytes.{Bytes, codes, bytes_eq, has_prefix, mem_byte, contains, trim}
use ssh_sign.Text.Scan.{Reader}
use ssh_sign.Ssh.{Ssh}
use ssh_sign.Sshsig.Structure.{Signature, SigError, validate_signature_algorithm}
use ssh_sign.Sshsig.Protocol.{parse_signature}

-- `pem.Block`; of the headers only their number is read.
pub record Block : Type 0 where
  pub kind : Bytes
  pub headers : ℕ
  pub bytes : Bytes

abbrev pub Pem : Type 0
Pem = Bytes → Option (Block × Bytes)

pub data ArmorError : Type 0 where
  failed_read : Bytes → ArmorError
  no_data : ArmorError
  exceeds : ℕ → ArmorError
  no_header invalid_block data_before data_after headers_found : ArmorError
  invalid_type : Bytes → ArmorError
  parse_failed : SigError → ArmorError
  refused : SigError → ArmorError

abbrev pub max_signature_armor_size : ℕ
max_signature_armor_size = 2 ^ 20

abbrev pub armor_header : Bytes
armor_header = codes "-----BEGIN SSH SIGNATURE-----"

abbrev pub pem_type : Bytes
pem_type = codes "SSH SIGNATURE"

-- `io.ReadAll(io.LimitReader(r, n))`: the reader's error is met only before the limit.
unfoldable pub read_limited : ℕ → Reader → Result Bytes Bytes
read_limited n r =
    if leb n (length r.content)
    then ok (take n r.content)
    else elim (r.failure) [ none ↦ ok r.content | some e ↦ err e ]

abbrev is_blank : ℕ → Bool
is_blank c = mem_byte c (codes " \t\r\n")

-- The checks of the decoded block and of the data around it.
unfoldable pub check_block : Bytes → Block → Bytes → Result ArmorError (Unit {0})
check_block data0 block rest = do
  guard
      (not (
        contains (drop (length armor_header) (take (length data0 - length rest) data0))
          (codes "-----BEGIN ")))
      data_before
  guard (bytes_eq block.kind pem_type) (invalid_type block.kind)
  guard (block.headers == 0) headers_found
  guard (is_nil (trim is_blank rest)) data_after

module _ (ssh : Ssh) (decode_pem : Pem) where
  unarmor : Bytes → Result ArmorError (Signature ssh.PublicKey)
  unarmor data0 = elim (decode_pem data0) [
    | none ↦ err invalid_block
    | some (block, rest) ↦ do
      check_block data0 block rest
      sig ← map_err parse_failed (parse_signature ssh block.bytes)
      map_err refused (validate_signature_algorithm ssh sig)
      ok sig
  ]

  unfoldable pub signature_read_max : Reader → ℕ → Result ArmorError (Signature ssh.PublicKey)
  unfolding unarmor
  signature_read_max r max = do
    data0 ← map_err failed_read (read_limited (max + 1) r)
    guard (not (is_nil data0)) no_data
    guard (leb (length data0) max) (exceeds max)
    guard (has_prefix data0 armor_header) no_header
    unarmor data0

  unfoldable pub signature_read : Reader → Result ArmorError (Signature ssh.PublicKey)
  unfolding signature_read_max
  signature_read r = signature_read_max r max_signature_armor_size

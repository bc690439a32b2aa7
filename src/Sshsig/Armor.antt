-- ===== src/Sshsig/Armor.antt =====
-- pkg/sshsig/protocol.go: `Armor`.
pub mod RoundTrip
pub mod Read
use ssh_sign.Prelude.{
  ℕ, zero, suc, Bool, [], ◌∷◌, ◌++◌, if◌then◌else◌, length, take, drop, is_nil, ltb,
}
use ssh_sign.Text.Bytes.{Bytes, codes}
use ssh_sign.Text.Base64.{encode}
use ssh_sign.Ssh.{Ssh}
use ssh_sign.Sshsig.Structure.{Signature}
use ssh_sign.Sshsig.Protocol.{marshal}

abbrev pub armor_columns : ℕ
armor_columns = 70

-- The loop over the encoded text and what follows it. Each round takes `armor_columns` bytes.
unfoldable pub armor_lines : ℕ → Bytes → Bytes
armor_lines zero encoded = []
armor_lines (suc f) encoded =
    let more = armor_lines f (drop armor_columns encoded) in
    if ltb armor_columns (length encoded)
    then take armor_columns encoded ++ b'\n' ∷ more
    else if is_nil encoded
    then []
    else encoded ++ b'\n' ∷ []

abbrev pub begin_line : Bytes
begin_line = codes "-----BEGIN SSH SIGNATURE-----\n"

abbrev pub end_line : Bytes
end_line = codes "-----END SSH SIGNATURE-----\n"

-- The text of an armored block.
unfoldable pub armor_text : Bytes → Bytes
unfolding armor_lines encode
armor_text s = begin_line ++ (armor_lines (suc (length (encode s))) (encode s) ++ end_line)

unfoldable pub armor : (ssh : Ssh) → Signature ssh.PublicKey → Bytes
unfolding armor_text marshal
armor ssh sig = armor_text (marshal ssh sig)

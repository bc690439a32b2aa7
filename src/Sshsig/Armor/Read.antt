-- ===== src/Sshsig/Armor/Read.antt =====
-- An armored signature is read back.
use ssh_sign.Prelude.{ℕ, suc, ◌≡◌, Bool, true, not, [], some, ◌==◌, length}
use ssh_sign.Text.Bytes.{Bytes, codes}
use ssh_sign.Text.Base64.{encode}
use ssh_sign.Text.Base64.RoundTrip.{are_bytes}
use ssh_sign.Ssh.{Ssh}
use ssh_sign.Sshsig.Armored.{Pem, Block, pem_type}
use ssh_sign.Sshsig.Armor.{armor_lines, armor_text}

abbrev is_no_dash : ℕ → Bool
is_no_dash c = not (c == b'-')

abbrev begin_mark : Bytes
begin_mark = codes "-----BEGIN "

abbrev body_of : Bytes → Bytes
body_of s = armor_lines (suc (length (encode s))) (encode s)

abbrev block_of : Bytes → Block
block_of s = record { kind = pem_type; headers = 0; bytes = s }

-- `pem.Decode` finds the block that `pem.Encode`'s layout frames, and leaves nothing behind it.
abbrev pub ReadsArmor : Pem → Type 0
ReadsArmor decode_pem =
    (s : Bytes) → are_bytes s ≡ true → decode_pem (armor_text s) ≡ some (block_of s, [])

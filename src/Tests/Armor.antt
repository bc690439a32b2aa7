-- ===== src/Tests/Armor.antt =====
-- Armored text, the agent's signers, and a signature from its creation to its check.
use ssh_sign.Prelude.{suc, ◌≡◌, refl, [], ◌∷◌, some, ok, Result, length, negsuc}
use ssh_sign.Text.Bytes.{Bytes, codes, bytes_eq, has_suffix}
use ssh_sign.Text.Base64.{decode, encode}
use ssh_sign.Ssh.{Certificate}
use ssh_sign.Sshsig.PublicKey.{public_key_equal}
use ssh_sign.Sshsig.Certificate.{as_certificate, certificate_valid_at, public_key_type}
use ssh_sign.Sshsig.Structure.{hash, validate_namespace, validate_signature_algorithm}
use ssh_sign.Sshsig.Protocol.{
  Signer, hash_message, signed_data, sign_blob, sign, is_rsa_certificate, select_signer,
  signature_create,
}
use ssh_sign.Sshsig.Armor.{armor_lines}
use ssh_sign.Sshsig.Armor.RoundTrip.{decode-armor_lines}
use ssh_sign.Sshsig.Agent.{holder, plain_signer, select, agent_signer}
use ssh_sign.Sshsig.Agent.Offered.{IsOffered, agent_signer-IsOffered}
use ssh_sign.Signers.Timestamp.{Time}
use ssh_sign.Flow.Sign.{sign_data}
use ssh_sign.Tests.Data.{toy, reader, git, key, other_key, message, signature, signer, at}

abbrev text : Bytes
text = codes "A text that takes more than one line of an armored block, with its base64."

decode-armor_lines_example :
    decode (armor_lines (suc (length (encode text))) (encode text)) ≡ some text
decode-armor_lines_example = decode-armor_lines text refl

abbrev key_line : Bytes
key_line = codes "ssh-ed25519 AQID"

-- `time.Time{}`
abbrev unset : Time
unset = record { unix = negsuc 62135596799; nsec = 0 }

sign_run :
    sign_data toy
      (at 15)
      (record { data_file = some (reader message); namespace = git; signer = some signer })
    ≡ ok signature
unfolding sign_data certificate_valid_at signature_create select_signer is_rsa_certificate
    as_certificate sign validate_namespace hash_message sign_blob signed_data hash
    validate_signature_algorithm public_key_type bytes_eq has_suffix
sign_run = refl

-- A stand-in for `ssh.NewCertSigner`, and a second signer in front of the right one.
abbrev wrap : Certificate Bytes → Signer Bytes → Result Bytes (Signer Bytes)
wrap cert s = ok s

abbrev other_signer : Signer Bytes
other_signer = record signer { public_key = other_key }

agent_run : agent_signer toy wrap key (ok (other_signer ∷ signer ∷ [])) ≡ ok signer
unfolding agent_signer select plain_signer holder public_key_equal bytes_eq
agent_run = refl

agent_signer-IsOffered_example : IsOffered toy wrap key (other_signer ∷ signer ∷ []) signer
agent_signer-IsOffered_example =
    agent_signer-IsOffered toy wrap key (other_signer ∷ signer ∷ []) signer agent_run

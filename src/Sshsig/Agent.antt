-- ===== src/Sshsig/Agent.antt =====
-- pkg/sshsig/agent.go: `agentSigner`, from the signers that the agent has listed. Debug output
-- and the connection's deadline are left out.
pub mod Offered
use ssh_sign.Prelude.{
  Bool, List, [], ◌∷◌, Option, none, some, if◌then◌else◌, find, Result, ok, err, map_err,
}
use ssh_sign.Text.Bytes.{Bytes, bytes_eq}
use ssh_sign.Ssh.{Ssh, Certificate}
use ssh_sign.Sshsig.PublicKey.{public_key_equal}
use ssh_sign.Sshsig.Structure.{rsa}
use ssh_sign.Sshsig.Protocol.{Signer}

pub data AgentError : Type 0 where
  listing_failed : Bytes → AgentError
  no_keys no_match : AgentError
  certificate_signer_failed : Bytes → AgentError

-- `new_cert_signer` stands for `ssh.NewCertSigner`.
module _ (ssh : Ssh)
    (new_cert_signer : Certificate ssh.PublicKey
      → Signer ssh.PublicKey
      → Result Bytes (Signer ssh.PublicKey)) where
  open ssh use {PublicKey, key_type, certificate}

  -- A loop over the listed signers up to the first that holds the key.
  unfoldable pub holder : PublicKey → List (Signer PublicKey) → Option (Signer PublicKey)
  unfolding public_key_equal
  holder pk = find (λ (s : Signer PublicKey). public_key_equal ssh pk s.public_key)

  unfoldable pub plain_signer :
      PublicKey → List (Signer PublicKey) → Result AgentError (Signer PublicKey)
  unfolding holder
  plain_signer pk signers = elim (holder pk signers) [ none ↦ err no_match | some s ↦ ok s ]

  -- For a certificate over an RSA key, a signer of the key inside is wrapped.
  unfoldable pub certificate_signer :
      PublicKey
      → Certificate PublicKey
      → List (Signer PublicKey)
      → Result AgentError (Signer PublicKey)
  unfolding holder plain_signer
  certificate_signer pk cert signers = elim (holder cert.key signers) [
    | none ↦ plain_signer pk signers
    | some s ↦ map_err certificate_signer_failed (new_cert_signer cert s)
  ]

  unfoldable pub select : PublicKey → List (Signer PublicKey) → Result AgentError (Signer PublicKey)
  unfolding certificate_signer plain_signer
  select pk signers = elim (certificate pk) [
    | none ↦ plain_signer pk signers
    | some cert ↦
        if bytes_eq (key_type cert.key) rsa
        then certificate_signer pk cert signers
        else plain_signer pk signers
  ]

  -- `listed` is what the agent answers.
  unfoldable pub agent_signer :
      PublicKey → Result Bytes (List (Signer PublicKey)) → Result AgentError (Signer PublicKey)
  unfolding select
  agent_signer pk (err e) = err (listing_failed e)
  agent_signer pk (ok []) = err no_keys
  agent_signer pk (ok (s ∷ signers)) = select pk (s ∷ signers)

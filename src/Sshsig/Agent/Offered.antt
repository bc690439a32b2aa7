-- ===== src/Sshsig/Agent/Offered.antt =====
-- Which signer the agent's keys yield.
use ssh_sign.Prelude.{
  ◌≡◌, ap, ◌∙◌, ◌⊎◌, inl, inr, List, [], ◌∷◌, some, Mem, find-mem, Bool-cases, Result, ok,
  map_err-eq-ok, Option-cases,
}
use ssh_sign.Text.Bytes.{Bytes, bytes_eq, bytes_eq_iff}
use ssh_sign.Ssh.{Ssh, Certificate}
use ssh_sign.Sshsig.PublicKey.{public_key_equal}
use ssh_sign.Sshsig.Structure.{rsa}
use ssh_sign.Sshsig.Protocol.{Signer}
use ssh_sign.Sshsig.Agent.{
  holder, plain_signer, certificate_signer, certificate_signer_failed, select, agent_signer,
}

module _ (ssh : Ssh)
    (new_cert_signer : Certificate ssh.PublicKey
      → Signer ssh.PublicKey
      → Result Bytes (Signer ssh.PublicKey)) where
  open ssh use {PublicKey, marshal_key, key_type, certificate}

  -- The signer is listed and holds the key.
  pub record Holds (pk : PublicKey) (signers : List (Signer PublicKey)) (s : Signer PublicKey)
      : Type 0 where
    pub listed : Mem s signers
    pub same_key : marshal_key pk ≡ marshal_key s.public_key

  -- The signer is the certificate's over a listed signer that holds the RSA key inside.
  pub record Wraps (pk : PublicKey) (signers : List (Signer PublicKey)) (s : Signer PublicKey)
      : Type 0 where
    pub cert : Certificate PublicKey
    pub inner : Signer PublicKey
    pub is_certificate : certificate pk ≡ some cert
    pub is_rsa : key_type cert.key ≡ rsa
    pub inner_holds : Holds cert.key signers inner
    pub wrapped : new_cert_signer cert inner ≡ ok s

  abbrev pub IsOffered : PublicKey → List (Signer PublicKey) → Signer PublicKey → Type 0
  IsOffered pk signers s = Holds pk signers s ⊎ Wraps pk signers s

  holder-Holds :
      (pk : PublicKey) (signers : List (Signer PublicKey)) (s : Signer PublicKey)
      → holder ssh new_cert_signer pk signers ≡ some s
      → Holds pk signers s
  unfolding holder public_key_equal
  holder-Holds pk signers s h =
      let (t, m) =
        find-mem (λ (x : Signer PublicKey). public_key_equal ssh pk x.public_key) signers s h in
      record { listed = m; same_key = (bytes_eq_iff _ _).0 t }

  plain_signer-Holds :
      (pk : PublicKey) (signers : List (Signer PublicKey)) (s : Signer PublicKey)
      → plain_signer ssh new_cert_signer pk signers ≡ ok s
      → Holds pk signers s
  unfolding plain_signer
  plain_signer-Holds pk signers s h = elim (Option-cases (holder ssh new_cert_signer pk signers)) [
    | inl e ↦ cc (rw (e, plain_signer) at h)
    | inr (x, e) ↦ holder-Holds pk signers s (e ∙ ap some (cc (rw (e, plain_signer) at h)))
  ]

  certificate_signer-IsOffered :
      (pk : PublicKey) (cert : Certificate PublicKey) (signers : List (Signer PublicKey))
      (s : Signer PublicKey)
      → certificate pk ≡ some cert
      → key_type cert.key ≡ rsa
      → certificate_signer ssh new_cert_signer pk cert signers ≡ ok s
      → IsOffered pk signers s
  unfolding certificate_signer
  certificate_signer-IsOffered pk cert signers s c r h =
      elim (Option-cases (holder ssh new_cert_signer cert.key signers)) [
        | inl e ↦ inl (plain_signer-Holds pk signers s (rw (e, certificate_signer) at h))
        | inr (x, e) ↦ inr (record {
          cert = cert;
          inner = x;
          is_certificate = c;
          is_rsa = r;
          inner_holds = holder-Holds cert.key signers x e;
          wrapped = map_err-eq-ok certificate_signer_failed _ (rw (e, certificate_signer) at h);
        })
      ]

  select-IsOffered :
      (pk : PublicKey) (signers : List (Signer PublicKey)) (s : Signer PublicKey)
      → select ssh new_cert_signer pk signers ≡ ok s
      → IsOffered pk signers s
  unfolding select
  select-IsOffered pk signers s h = elim (Option-cases (certificate pk)) [
    | inl e ↦ inl (plain_signer-Holds pk signers s (rw (e, select) at h))
    | inr (cert, e) ↦ elim (Bool-cases (bytes_eq (key_type cert.key) rsa)) [
      | inl t ↦
          certificate_signer-IsOffered pk cert signers s e ((bytes_eq_iff _ _).0 t)
            (rw t at (rw (e, select) at h))
      | inr f ↦ inl (plain_signer-Holds pk signers s (rw f at (rw (e, select) at h)))
    ]
  ]

  -- A signer that the agent yields is one of those it lists and holds the key, or it is the
  -- certificate's, where the key is a certificate over an RSA key that one of those holds.
  pub agent_signer-IsOffered :
      (pk : PublicKey) (signers : List (Signer PublicKey)) (s : Signer PublicKey)
      → agent_signer ssh new_cert_signer pk (ok signers) ≡ ok s
      → IsOffered pk signers s
  unfolding agent_signer
  agent_signer-IsOffered pk [] s h = cc
  agent_signer-IsOffered pk (x ∷ signers) s h = select-IsOffered pk (x ∷ signers) s h

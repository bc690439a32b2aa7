-- ===== src/Sshsig/Protocol/Undecided.antt =====
-- When `Verify` fails on the reader: verification is then undecided.
use ssh_sign.Prelude.{◌≡◌, ◌↔◌, arith, some, ok, err, Result, map_err, >>=-eq-err, inl, inr}
use ssh_sign.Text.Bytes.{Bytes}
use ssh_sign.Text.Scan.{Reader}
use ssh_sign.Ssh.{Ssh}
use ssh_sign.Sshsig.Structure.{
  Signature, hash, validate_structure, validate_rest, security_key_fields, validate_namespace,
  validate_signature_format, validate_signature_algorithm, verify_failed, read_error,
}
use ssh_sign.Sshsig.Structure.Sound.{
  IsSound, IsModern, validate_structure_iff, validate_signature_algorithm_iff, known-hash,
}
use ssh_sign.Sshsig.Protocol.{hash_message, verify}

module _ (ssh : Ssh) where
  open ssh use {PublicKey}

  structure-ne-read :
      (sig : Signature PublicKey) (e : Bytes) → ¬ (validate_structure ssh sig ≡ err (read_error e))
  unfolding validate_structure validate_rest security_key_fields validate_namespace
      validate_signature_format hash
  structure-ne-read sig e h = ground arith

  algorithm-ne-read :
      (sig : Signature PublicKey) (e : Bytes)
      → ¬ (validate_signature_algorithm ssh sig ≡ err (read_error e))
  unfolding validate_signature_algorithm
  algorithm-ne-read sig e h = ground arith

  hash_message-read :
      (r : Reader) (h e : Bytes) → hash_message ssh r h ≡ err (read_error e) → r.failure ≡ some e
  unfolding hash_message hash
  hash_message-read r h e k = ground arith

  map_err-ne-read :
      {A : Type 0} (r : Result Bytes A) (e : Bytes)
      → ¬ (map_err verify_failed r ≡ err (read_error e))
  map_err-ne-read (ok a) e h = cc
  map_err-ne-read (err x) e h = cc

  undecided :
      (r : Reader) (sig : Signature PublicKey) (e : Bytes)
      → verify ssh r sig ≡ err (read_error e)
      → IsSound ssh sig × IsModern ssh sig × (r.failure ≡ some e)
  unfolding verify
  undecided r sig e h = elim (>>=-eq-err (validate_structure ssh sig) _ h) [
    | inl x ↦ absurd (structure-ne-read sig e x)
    | inr (_, s, h1) ↦ elim (>>=-eq-err (validate_signature_algorithm ssh sig) _ h1) [
      | inl x ↦ absurd (algorithm-ne-read sig e x)
      | inr (_, a, h2) ↦ elim (>>=-eq-err (hash_message ssh r sig.hash_algorithm) _ h2) [
        | inl x ↦ (
          (validate_structure_iff ssh sig).0 s,
          (validate_signature_algorithm_iff ssh sig).0 a,
          hash_message-read r sig.hash_algorithm e x,
        )
        | inr (_, _, h3) ↦ absurd (map_err-ne-read _ e h3)
      ]
    ]
  ]

  -- Verification fails with an error of the reader exactly if the signature passes its checks and
  -- the reader ends in that error.
  pub verify_read_error_iff :
      (r : Reader) (sig : Signature PublicKey) (e : Bytes)
      → (verify ssh r sig ≡ err (read_error e))
        ↔ (IsSound ssh sig × IsModern ssh sig × (r.failure ≡ some e))
  unfolding verify hash_message
  verify_read_error_iff r sig e = (
    undecided r sig e,
    λ h.
        let (f, k) = known-hash ssh sig.hash_algorithm h.0.hash_known in
        let s = (validate_structure_iff ssh sig).1 h.0 in
        let a = (validate_signature_algorithm_iff ssh sig).1 h.1 in rw (s, a, k, h.2),
  )

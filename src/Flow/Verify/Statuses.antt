-- ===== src/Flow/Verify/Statuses.antt =====
-- What the statuses of a result of `verify` say of its errors.
use ssh_sign.Prelude.{false, ◌≡◌, ◌↔◌, refl, arith, List, [], ◌∷◌, ◌++◌, some, ok, err, Result}
use ssh_sign.Text.Scan.{Reader}
use ssh_sign.Ssh.{Ssh}
use ssh_sign.Sshsig.Certificate.{CertError, certificate_valid_at}
use ssh_sign.Sshsig.Structure.{Signature}
use ssh_sign.Sshsig.Protocol.{verify as verify_signature}
use ssh_sign.Sshsig.Armored.{Pem}
use ssh_sign.Signers.Timestamp.{Time}
use ssh_sign.Signers.Line.{Machine}
use ssh_sign.Signers.File.{File}
use ssh_sign.Signers.Match.{Found, entry, rejected, nothing, namespace_constraint_result}
use ssh_sign.Flow.Choice.{Status, FlowError}
use ssh_sign.Flow.Choice.Laws.{is_invalid, append-eq-nil, with_verification_statuses}
use ssh_sign.Flow.Verify.{
  VerifyOpts, VerifyResult, error_list, resolve_designation, resolve_authentication,
  certificate_check, match_signer, verify_found, verify_parse, timestamp_or, verify,
}

module _ {K : Type 0} where
  -- The two resolutions together: a status is invalid exactly if one of them has an error.
  resolved :
      (opts : VerifyOpts) (sig : Signature K) (found : Found K)
      → ((error_list (resolve_designation opts sig found).1
            ++ error_list (resolve_authentication opts found).2)
          ≡ [])
        ↔ ((is_invalid (resolve_designation opts sig found).0 ≡ false)
            × (is_invalid (resolve_authentication opts found).0 ≡ false))
  unfolding resolve_designation resolve_authentication namespace_constraint_result
  resolved opts sig (entry ent r) = (λ h. ground arith, λ h. ground arith)
  resolved opts sig (rejected e) = (λ h. ground arith, λ h. ground arith)
  resolved opts sig nothing = (λ h. ground arith, λ h. ground arith)

append-nil_regroup :
    (xs ys zs : List FlowError) → (xs ++ (ys ++ zs) ≡ []) ↔ ((xs ++ ys ≡ []) × (zs ≡ []))
append-nil_regroup [] ys zs = append-eq-nil ys zs
append-nil_regroup (x ∷ xs) ys zs = (λ h. cc, λ h. cc h.0)

module _ (m : Machine) (ssh : Ssh) (decode_pem : Pem) where
  open ssh use {PublicKey}

  -- The certificate's check keeps the status, or makes it invalid with an error.
  certificate_status :
      (sig : Signature PublicKey) (ts : Time) (status : Status)
      → let (s, errs) = certificate_check m ssh decode_pem sig ts status in
        (is_invalid s ≡ false) ↔ ((is_invalid status ≡ false) × (errs ≡ []))
  unfolding certificate_check
  certificate_status sig ts status = go (certificate_valid_at ssh sig.public_key ts) refl
    where
      go :
          (c : Result CertError (Unit {0}))
          → certificate_valid_at ssh sig.public_key ts ≡ c
          → let (s, errs) = certificate_check m ssh decode_pem sig ts status in
            (is_invalid s ≡ false) ↔ ((is_invalid status ≡ false) × (errs ≡ []))
      go (ok tt) e = rw (e, certificate_check) (λ h. (h, refl), λ h. h.0)
      go (err x) e = rw (e, certificate_check) (λ h. cc, λ h. cc h.1)

  -- No status of the result is `invalid`.
  abbrev pub NoneInvalid : VerifyResult → Type 0
  NoneInvalid res =
      ((is_invalid res.designation ≡ false) × (is_invalid res.authentication ≡ false))
      × (is_invalid res.verification ≡ false)

  -- The errors and the statuses that are settled before the message is read.
  settled :
      (opts : VerifyOpts) (sig : Signature PublicKey) (found : Found PublicKey) (ts : Time)
      → let (designation, e) = resolve_designation opts sig found in
        let (authentication, _, e') = resolve_authentication opts found in
        let (status, errs) = certificate_check m ssh decode_pem sig ts authentication in
        (error_list e ++ (error_list e' ++ errs) ≡ [])
        ↔ ((is_invalid designation ≡ false) × (is_invalid status ≡ false))
  settled opts sig found ts = (
    λ h.
        let (e, x) = (append-nil_regroup _ _ _).0 h in
        let (d, a) = (resolved opts sig found).0 e in (d, (certificate_status sig ts _).1 (a, x)),
    λ (d, s).
        let (a, x) = (certificate_status sig ts _).0 s in
        (append-nil_regroup _ _ _).1 ((resolved opts sig found).1 (d, a), x),
  )

  found_statuses :
      (opts : VerifyOpts) (sig : Signature PublicKey) (found : Found PublicKey) (ts : Time)
      (v : Reader) (res : VerifyResult)
      → (verify_found m ssh decode_pem opts sig found ts v).0 ≡ some res
      → ((verify_found m ssh decode_pem opts sig found ts v).1 ≡ []) ↔ NoneInvalid res
  unfolding verify_found
  found_statuses opts sig found ts v res h =
      with_verification_statuses (verify_signature ssh v sig) _ _ res
        (λ r. (is_invalid r.designation ≡ false) × (is_invalid r.authentication ≡ false))
        (λ r. r.verification) (λ s. refl) (λ s. settled opts sig found ts) h

  -- A result of `Verify` comes without errors exactly if none of its statuses is `invalid`.
  pub verify_statuses :
      (now : Time) (opts : VerifyOpts) (res : VerifyResult)
      → (verify m ssh decode_pem now opts).0 ≡ some res
      → ((verify m ssh decode_pem now opts).1 ≡ []) ↔ NoneInvalid res
  unfolding verify
  verify_statuses now opts res h = go (verify_parse m ssh decode_pem opts) refl
    where
      go :
          (r : Result FlowError (File PublicKey × Signature PublicKey × Reader))
          → verify_parse m ssh decode_pem opts ≡ r
          → ((verify m ssh decode_pem now opts).1 ≡ []) ↔ NoneInvalid res
      go (err e) p = cc (rw (p, verify) at h)
      go (ok (parsed, sig, v)) p =
          let ts = timestamp_or now opts.timestamp in
          rw (p, verify)
            (found_statuses opts sig (match_signer m ssh decode_pem opts parsed sig ts) ts v res
              (rw (p, verify) at h))

-- ===== src/Flow/Check.antt =====
-- pkg/flow/check.go: `Check`. Debug output is left out, and `now` is the clock.
pub mod Policy
use ssh_sign.Prelude.{
  ℕ, Bool, true, false, not, ◌&&◌, ◌||◌, List, [], ◌∷◌, ◌++◌, Option, none, some, if◌then◌else◌,
  is_nil, Result, ok, err, map_err, ◌>>=◌,
}
use ssh_sign.Text.Bytes.{Bytes, codes, bytes_eq}
use ssh_sign.Text.Scan.{Reader}
use ssh_sign.Ssh.{Ssh}
use ssh_sign.Sshsig.PublicKey.{parse_public_key_line, public_key_equal}
use ssh_sign.Sshsig.Certificate.{certificate_valid_at}
use ssh_sign.Sshsig.Structure.{Signature}
use ssh_sign.Sshsig.Protocol.{verify as verify_signature}
use ssh_sign.Sshsig.Armored.{Pem, signature_read}
use ssh_sign.Signers.Timestamp.{Time}
use ssh_sign.Flow.Choice.{
  Status, valid, invalid, disabled, FlowError, bad_auth_key, unreadable_signature, other_namespace,
  other_key, certificate_errors, require, check_namespace, check_auth_key, errors_of,
  with_verification,
}
use ssh_sign.Flow.Verify.{timestamp_or}

pub record CheckOpts : Type 0 where
  pub auth_key : Bytes
  pub namespace : Bytes
  pub no_auth_key : Bool
  pub no_namespace : Bool
  pub signature_file : Option Reader
  pub timestamp : Time
  pub verify_file : Option Reader

pub record CheckResult : Type 0 where
  pub authentication : Status
  pub designation : Status
  pub verification : Status

abbrev pub status_of : List FlowError → Status
status_of [] = valid
status_of (e ∷ es) = invalid

module _ (ssh : Ssh) (decode_pem : Pem) where
  open ssh use {PublicKey}

  -- `CheckAuthKey` and `CheckNamespace`, reported together.
  unfoldable pub option_errors : CheckOpts → List FlowError
  option_errors opts =
      errors_of (check_auth_key ssh opts.auth_key opts.no_auth_key)
      ++ errors_of (check_namespace opts.namespace opts.no_namespace)

  -- The key to expect; none with `-K`.
  unfoldable pub expected_key : CheckOpts → Result FlowError (Option PublicKey)
  expected_key opts =
      if opts.no_auth_key
      then ok none
      else (do pk ← map_err bad_auth_key (parse_public_key_line ssh opts.auth_key); ok (some pk))

  -- The key and the certificate are checked independently.
  unfoldable pub authenticate :
      Option PublicKey → Signature PublicKey → Time → Status × List FlowError
  authenticate none sig ts = (disabled, [])
  authenticate (some pk) sig ts =
      let key_errs = if not (public_key_equal ssh pk sig.public_key) then other_key ∷ [] else [] in
      let certificate_errs = certificate_errors (certificate_valid_at ssh sig.public_key ts) in
      (status_of (key_errs ++ certificate_errs), key_errs ++ certificate_errs)

  unfoldable pub designate : CheckOpts → Signature PublicKey → Status × List FlowError
  designate opts sig =
      if opts.no_namespace
      then (disabled, [])
      else if bytes_eq opts.namespace sig.namespace
      then (valid, [])
      else (invalid, other_namespace sig.namespace opts.namespace ∷ [])

  unfoldable pub check_signature :
      CheckOpts
      → Option PublicKey
      → Signature PublicKey
      → Time
      → Reader
      → Option CheckResult × List FlowError
  unfolding authenticate designate with_verification
  check_signature opts key sig ts data0 =
      let (authentication, authentication_errs) = authenticate key sig ts in
      let (designation, designation_errs) = designate opts sig in
      with_verification (verify_signature ssh data0 sig) (authentication_errs ++ designation_errs)
        (λ verification. record {
          authentication = authentication;
          designation = designation;
          verification = verification;
        })

  -- The required readers.
  check_readers : CheckOpts → Result FlowError (Reader × Reader)
  check_readers opts = do
    s ← require (codes "signature file") opts.signature_file
    v ← require (codes "verify file") opts.verify_file
    ok (s, v)

  check_parse : CheckOpts → Reader → Result FlowError (Option PublicKey × Signature PublicKey)
  check_parse opts s = do
    key ← expected_key opts
    sig ← map_err unreadable_signature (signature_read ssh decode_pem s)
    ok (key, sig)

  -- With the readers there and the options in order.
  check_with : Time → CheckOpts → Reader → Reader → Option CheckResult × List FlowError
  unfolding check_parse check_signature
  check_with now opts s v = elim (check_parse opts s) [
    | err e ↦ (none, e ∷ [])
    | ok (key, sig) ↦ check_signature opts key sig (timestamp_or now opts.timestamp) v
  ]

  unfoldable pub check : Time → CheckOpts → Option CheckResult × List FlowError
  unfolding check_readers option_errors check_with
  check now opts = elim (check_readers opts) [
    | err e ↦ (none, e ∷ [])
    | ok (s, v) ↦ elim (option_errors opts) [
      | [] ↦ check_with now opts s v
      | e ∷ es ↦ (none, e ∷ es)
    ]
  ]

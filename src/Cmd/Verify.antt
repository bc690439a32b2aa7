-- ===== src/Cmd/Verify.antt =====
-- internal/cmd/verify.go: `VerifyCommand.Run`. Debug output is left out, and the files are closed by
-- the end of the process.
use ssh_sign.Prelude.{Bool, List, [], ◌∷◌, Option, none, some, Result, ok, map_err, negsuc}
use ssh_sign.Text.Bytes.{Bytes}
use ssh_sign.Ssh.{Ssh}
use ssh_sign.Os.{Os, Action, pure, lift, ◌>>=◌, ◌>>◌, work}
use ssh_sign.Helper.{Parser, parse_timestamp}
use ssh_sign.Sshsig.Armored.{Pem}
use ssh_sign.Signers.Timestamp.{Time}
use ssh_sign.Signers.Line.{Machine}
use ssh_sign.Flow.Choice.{NamedReader}
use ssh_sign.Flow.Verify.{VerifyOpts, VerifyResult, verify}
use ssh_sign.Cmd.Inputs.{InputError}
use ssh_sign.Cmd.Failure.{
  verified_data, allowed_signers, invalid_timestamp, Failure, usage, Failures, flow_errors,
}
use ssh_sign.Cmd.Prepare.{
  Cmd, within_list, open_input, signature_file_or_default, signature_input, default_signers_files,
  read_signers, max_signers_size, restrict,
}

-- The fields that the flags set.
pub record VerifyArgs : Type 0 where
  pub namespace : Bytes
  pub no_namespace : Bool
  pub principal : Bytes
  pub allowed_signers_file : Bytes
  pub signature_file : Bytes
  pub timestamp : Bytes
  pub verify_file : Bytes

-- `time.Time{}`
abbrev pub zero_time : Time
zero_time = record { unix = negsuc 62135596799; nsec = 0 }

module _ (parse_time parse_local : Parser) where
  -- The zero time if no timestamp is given.
  unfoldable pub given_timestamp : Bytes → Result Failure Time
  unfolding parse_timestamp
  given_timestamp [] = ok zero_time
  given_timestamp (c ∷ s) =
      map_err (λ e. usage (invalid_timestamp (c ∷ s) e))
        (parse_timestamp parse_time parse_local (c ∷ s))

module _ (os : Os) where
  -- The default signers files, or the one that is named.
  unfoldable pub signers_input : Bytes → Action Failure (List NamedReader)
  unfolding default_signers_files read_signers open_input
  signers_input [] = do
    paths ← default_signers_files os
    read_signers os max_signers_size max_signers_size paths
  signers_input (c ∷ path) = do
    r ← open_input os allowed_signers (c ∷ path)
    pure (record { name = c ∷ path; reader = some r } ∷ [])

module _ (os : Os) (parse_time parse_local : Parser) (text : InputError → Bytes) where
  -- Everything up to the call of the flow: its options.
  unfoldable pub verify_options : VerifyArgs → Action Failure VerifyOpts
  unfolding given_timestamp signers_input signature_file_or_default signature_input open_input
      restrict
  verify_options args = do
    ts ← lift (given_timestamp parse_time parse_local args.timestamp)
    signers ← signers_input os args.allowed_signers_file
    s ← signature_input os text (signature_file_or_default os args.signature_file args.verify_file)
    v ← open_input os verified_data args.verify_file
    restrict os
    pure (record {
      allowed_signers_file = none;
      allowed_signers_files = signers;
      namespace = args.namespace;
      no_namespace = args.no_namespace;
      principal = args.principal;
      signature_file = some s;
      timestamp = ts;
      verify_file = some v;
    })

  module _ (m : Machine) (ssh : Ssh) (decode_pem : Pem) where
    -- The flow's result beside its errors.
    abbrev pub verified : Time → VerifyOpts → Option VerifyResult × Failures
    verified now opts =
        let (res, errs) = verify m ssh decode_pem now opts in (res, flow_errors errs)

    unfoldable pub verify_run : Time → VerifyArgs → Cmd (Option VerifyResult × Failures)
    unfolding verify_options work
    verify_run now args = do opts ← within_list (verify_options args); work (verified now opts)

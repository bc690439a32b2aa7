-- ===== src/Cmd/Check.antt =====
-- internal/cmd/check.go: `CheckCommand.Run`. Debug output is left out. `authorized_key` stands for
-- `ssh.MarshalAuthorizedKey`.
use ssh_sign.Prelude.{
  Bool, not, ◌&&◌, [], ◌∷◌, ◌++◌, Option, some, if◌then◌else◌, is_nil, Result, ok, err, map_err,
}
use ssh_sign.Text.Bytes.{Bytes}
use ssh_sign.Text.Utf8.{trim_space}
use ssh_sign.Ssh.{Ssh}
use ssh_sign.Os.{Os, pure, lift, ◌>>=◌, ◌>>◌, work}
use ssh_sign.Helper.{Parser}
use ssh_sign.Config.Ini.{Config}
use ssh_sign.Sshsig.Armored.{Pem}
use ssh_sign.Signers.Timestamp.{Time}
use ssh_sign.Flow.Choice.{FlowError, check_namespace, check_auth_key}
use ssh_sign.Flow.Check.{CheckOpts, CheckResult, check}
use ssh_sign.Cmd.Keys.{may_be_alias, resolve_key_reference}
use ssh_sign.Cmd.Inputs.{InputError}
use ssh_sign.Cmd.Failure.{
  verified_data, invalid_auth_key, flow_failed, Failure, usage, Failures, flow_errors,
}
use ssh_sign.Cmd.Prepare.{
  Cmd, within_list, attempt, open_input, signature_file_or_default, signature_input, restrict,
  load_config,
}
use ssh_sign.Cmd.Verify.{zero_time, given_timestamp}

-- The fields that the flags set.
pub record CheckArgs : Type 0 where
  pub auth_key : Bytes
  pub namespace : Bytes
  pub no_auth_key : Bool
  pub no_namespace : Bool
  pub signature_file : Bytes
  pub timestamp : Bytes
  pub verify_file : Bytes

-- An error, and the value without one.
abbrev pub errors_in : {A : Type 0} → Result Failure A → Failures
errors_in (ok a) = []
errors_in (err e) = e ∷ []

abbrev pub value_or : {A : Type 0} → A → Result Failure A → A
value_or a (ok b) = b
value_or a (err e) = a

abbrev pub as_usage : {A : Type 0} → Result FlowError A → Result Failure A
as_usage = map_err (λ e. usage (flow_failed e))

-- `len(errs) > 0`
abbrev pub none_in : Failures → Result Failures (Unit {0})
none_in [] = ok tt
none_in (e ∷ es) = err (e ∷ es)

module _ (os : Os) (ssh : Ssh) (authorized_key : ssh.PublicKey → Bytes) where
  open ssh use {PublicKey}

  -- `PublicKeyString`
  abbrev pub public_key_string : PublicKey → Bytes
  public_key_string pk = trim_space (authorized_key pk)

  -- The line of the key that an alias stands for.
  abbrev pub alias_line : Result Failure Config → Bytes → Result Failure Bytes
  alias_line (err e) key = err e
  alias_line (ok cfg) key = elim (resolve_key_reference ssh cfg key) [
    | err e ↦ err (usage (invalid_auth_key e))
    | ok (pk, alias) ↦ ok (public_key_string pk)
  ]

  -- The expected key after the alias is resolved, or why that failed.
  unfoldable pub resolve_auth_key : Bytes → Bool → Cmd (Result Failure Bytes)
  unfolding resolve_key_reference load_config may_be_alias
  resolve_auth_key key no_auth_key =
      if not (is_nil key) && (not no_auth_key && may_be_alias ssh key)
      then (do cfg ← attempt (load_config os ssh); pure (alias_line cfg key))
      else pure (ok key)

  -- The key is checked only where no alias has failed.
  unfoldable pub key_errors : Result Failure Bytes → Bool → Failures
  unfolding check_auth_key
  key_errors (err e) no_auth_key = e ∷ []
  key_errors (ok key) no_auth_key = errors_in (as_usage (check_auth_key ssh key no_auth_key))

module _ (os : Os) (parse_time parse_local : Parser) (text : InputError → Bytes) (ssh : Ssh)
    (authorized_key : ssh.PublicKey → Bytes) where
  -- `-N` drops the default namespace.
  abbrev pub effective_namespace : CheckArgs → Bytes
  effective_namespace args = if args.no_namespace then [] else args.namespace

  -- The flags that do not fit are reported together, before any input is opened.
  unfoldable pub check_flags : CheckArgs → Cmd (Time × Bytes)
  unfolding given_timestamp resolve_auth_key key_errors check_namespace
  check_flags args =
      let ts = given_timestamp parse_time parse_local args.timestamp in
      do
        key ← resolve_auth_key os ssh authorized_key args.auth_key args.no_auth_key
        lift (
            none_in (
              errors_in ts
              ++ (key_errors os ssh authorized_key key args.no_auth_key
                  ++ errors_in
                      (as_usage (check_namespace (effective_namespace args) args.no_namespace)))))
        pure (value_or zero_time ts, value_or args.auth_key key)

  unfoldable pub check_options : CheckArgs → Cmd CheckOpts
  unfolding check_flags signature_file_or_default signature_input open_input restrict
  check_options args = do
    (ts, key) ← check_flags args
    s ← within_list (
        signature_input os text (signature_file_or_default os args.signature_file args.verify_file))
    v ← within_list (open_input os verified_data args.verify_file)
    within_list (restrict os)
    pure (record {
      auth_key = key;
      namespace = effective_namespace args;
      no_auth_key = args.no_auth_key;
      no_namespace = args.no_namespace;
      signature_file = some s;
      timestamp = ts;
      verify_file = some v;
    })

  module _ (decode_pem : Pem) where
    abbrev pub checked : Time → CheckOpts → Option CheckResult × Failures
    checked now opts = let (res, errs) = check ssh decode_pem now opts in (res, flow_errors errs)

    unfoldable pub check_run : Time → CheckArgs → Cmd (Option CheckResult × Failures)
    unfolding check_options work
    check_run now args = do opts ← check_options args; work (checked now opts)

-- ===== src/Main/Verified.antt =====
-- What the exit status 0 of `ssh-sign verify` tells.
use ssh_sign.Prelude.{
  List, [], ◌∷◌, some, ok, is_nil, ◌≡◌, refl, ap, ◌∙◌, true, find, inl, inr, Result-cases, arith,
}
use ssh_sign.Text.Bytes.{Bytes, codes, bytes_eq}
use ssh_sign.Ssh.{Ssh}
use ssh_sign.Os.{History, Os}
use ssh_sign.Helper.{Parser}
use ssh_sign.Signers.Timestamp.{Time}
use ssh_sign.Signers.Line.{Machine}
use ssh_sign.Sshsig.Armored.{Pem}
use ssh_sign.Flow.Choice.{FlowError}
use ssh_sign.Flow.Verify.{VerifyOpts, verify as verify_flow}
use ssh_sign.Flow.Verify.Signer.{IsAuthorized, verify-IsAuthorized}
use ssh_sign.Args.Flags.{Flag, FlagSet}
use ssh_sign.Args.Command.{parse, parse_command}
use ssh_sign.Cmd.Inputs.{InputError}
use ssh_sign.Cmd.Failure.{Failures, flow_errors}
use ssh_sign.Cmd.Verify.{VerifyArgs, verify_options, verify_run}
use ssh_sign.Cmd.Registered.{
  Subcommand, inspect, sign, verify, check, version, name_of, commands, root_set, command_set,
  verify_args, bool_of,
}
use ssh_sign.Cmd.Requested.{IsRequested, verify_options-IsRequested}
use ssh_sign.Main.{World, verified, Exit, result_of, run, run_command, start_command, main}
use ssh_sign.Main.Status.{exit_result-HasStatus}

pub no_flow_errors : (es : List FlowError) → flow_errors es ≡ [] → es ≡ []
no_flow_errors [] h = refl
no_flow_errors (e ∷ es) h = cc

module _ (os : Os) (parse_time parse_local : Parser) (text : InputError → Bytes) (m : Machine)
    (ssh : Ssh) (decode_pem : Pem) (now : Time) where
  -- The options that a successful run of `verify` was called with.
  pub record IsRun (args : VerifyArgs) : Type 0 where
    pub opts : VerifyOpts
    pub are_prepared : (verify_options os parse_time parse_local text args []).0 ≡ ok opts
    pub succeeded : (verify_flow m ssh decode_pem now opts).1 ≡ []

  verify_run-IsRun :
      (args : VerifyArgs)
      → (result_of {K = ssh.PublicKey} verified
          (verify_run os parse_time parse_local text m ssh decode_pem now args []).0).errors
        ≡ []
      → IsRun args
  unfolding verify_run
  verify_run-IsRun args h =
      elim (Result-cases (verify_options os parse_time parse_local text args []).0) [
        | inl (opts, e) ↦ record {
          opts = opts;
          are_prepared = e;
          succeeded = no_flow_errors _ (rw (e, verify_run) at h);
        }
        | inr (e, p) ↦ cc (rw (p, verify_run) at h)
      ]

module _ (ssh : Ssh) (w : World ssh) where
  no_errors : (es : Failures) → is_nil es ≡ true → es ≡ []
  no_errors [] h = refl
  no_errors (e ∷ es) h = cc

  run_command-errors :
      (c : Subcommand) (s : FlagSet) (argv : List Bytes) (fs : List Flag)
      → parse s argv ≡ ok fs
      → (run_command ssh w c s argv).0.status ≡ 0
      → (run ssh w c fs).0.errors ≡ []
  unfolding run_command
  run_command-errors c s argv fs p h =
      let res = (run ssh w c fs).0 in
      let json = bool_of (codes "json") fs in
      let (_, success, _) = exit_result-HasStatus ssh w (name_of c) json res in
      let both = success.0 (rw (p, run_command) at h) in no_errors res.errors (ground arith)

  find_name : (c : Subcommand) → find (λ d. bytes_eq (name_of d) (name_of c)) commands ≡ some c
  unfolding bytes_eq
  find_name inspect = refl
  find_name sign = refl
  find_name verify = refl
  find_name check = refl
  find_name version = refl

  started :
      (c : Subcommand) (s : FlagSet) (argv : List Bytes) (r : Exit × History)
      → command_set c ≡ some s
      → start_command ssh w (name_of c) argv ≡ some r
      → run_command ssh w c s argv ≡ r
  unfolding start_command
  started c s argv r e h = cc (rw (find_name c, e, start_command) at h)

  -- A command that was parsed and has ended with status 0 has reported no error.
  pub main-errors :
      (c : Subcommand) (root s : FlagSet) (argv rest : List Bytes) (fs : List Flag) (exit : Exit)
      (history : History)
      → root_set ≡ some root
      → parse_command root argv ≡ ok (name_of c, rest)
      → command_set c ≡ some s
      → parse s rest ≡ ok fs
      → main ssh w argv ≡ some (exit, history)
      → exit.status ≡ 0
      → (run ssh w c fs).0.errors ≡ []
  unfolding main
  main-errors c root s argv rest fs exit history r p e q h z =
      let same = started c s rest (exit, history) e (rw (r, p, main) at h) in
      run_command-errors c s rest fs q (ap (λ (x : Exit × History). x.0.status) same ∙ z)

  -- The options of the flow, and what their acceptance rests on.
  pub record IsVouched (fs : List Flag) : Type 0 where
    pub opts : VerifyOpts
    pub is_requested : IsRequested w.os (verify_args fs) opts
    pub is_authorized : IsAuthorized w.machine ssh w.decode_pem w.now opts

  -- If `ssh-sign verify` exits with status 0, the flow ran on options with the signer and the
  -- namespace of the flags, over the data of a file opened at the path that the flags name, and an
  -- entry of the allowed signers that were read holds the signature's key, fits the signer, the
  -- namespace and the time, and the key verifies the signature over the whole message.
  pub main-IsVouched :
      (root s : FlagSet) (argv rest : List Bytes) (fs : List Flag) (exit : Exit) (history : History)
      → root_set ≡ some root
      → parse_command root argv ≡ ok (name_of verify, rest)
      → command_set verify ≡ some s
      → parse s rest ≡ ok fs
      → main ssh w argv ≡ some (exit, history)
      → exit.status ≡ 0
      → IsVouched fs
  unfolding run
  main-IsVouched root s argv rest fs exit history r p e q h z =
      let k =
        verify_run-IsRun w.os w.parse_time w.parse_local w.input_text w.machine ssh w.decode_pem
          w.now (verify_args fs)
          (main-errors verify root s argv rest fs exit history r p e q h z) in
      record {
        opts = k.opts;
        is_requested =
            (verify_options-IsRequested w.os w.parse_time w.parse_local w.input_text
                (verify_args fs)).at
              [] k.opts k.are_prepared;
        is_authorized = verify-IsAuthorized w.machine ssh w.decode_pem w.now k.opts k.succeeded;
      }

-- ===== src/Cmd/Ordered.antt =====
-- Every command opens its inputs, restricts itself, and only then starts its flow.
use ssh_sign.Prelude.{Bool, not, ◌&&◌, ◌||◌, List, Option, [], ◌∷◌, Result, is_nil}
use ssh_sign.Text.Bytes.{Bytes, codes}
use ssh_sign.Ssh.{Ssh, Certificate}
use ssh_sign.Os.{Os}
use ssh_sign.Os.Orderly.{
  Prepares, Secures, Ends, prepares, Keeps-lift, Keeps-bind, Secures-bind, Secures-pure, Ends-bind,
  Confines-work, Confines-ask,
}
use ssh_sign.Helper.{Parser}
use ssh_sign.Config.Files.Ordered.{Prepares-if}
use ssh_sign.Sshsig.Armored.{Pem}
use ssh_sign.Sshsig.Protocol.{Signer}
use ssh_sign.Signers.Timestamp.{Time}
use ssh_sign.Signers.Line.{Machine}
use ssh_sign.Cmd.Keys.{may_be_alias}
use ssh_sign.Cmd.Inputs.{InputError}
use ssh_sign.Cmd.Prepare.Ordered.{
  Prepares-within_list, Secures-within_list, Ends-within_list, Prepares-attempt,
  open_input-Prepares, signature_input-Prepares, default_signers_files-Prepares,
  read_signers-Prepares, restrict-Secures, load_config-Prepares,
}
use ssh_sign.Cmd.Verify.{VerifyArgs, signers_input, verify_options, verify_run}
use ssh_sign.Cmd.Check.{CheckArgs, resolve_auth_key, check_flags, check_options, check_run}
use ssh_sign.Cmd.Sign.{
  SignArgs, data_input, connect, connect_agent, config_for, signing_key, sign_input, sign_run,
}
use ssh_sign.Cmd.Inspect.{inspect_input, inspect_run}

module _ (os : Os) where
  signers_input-Prepares : (path : Bytes) → Prepares (signers_input os path)
  unfolding signers_input
  signers_input-Prepares [] =
      search (prepares, default_signers_files-Prepares, read_signers-Prepares)
  signers_input-Prepares (c ∷ path) = search (prepares, open_input-Prepares)

module _ (os : Os) (parse_time parse_local : Parser) (text : InputError → Bytes) where
  verify_options-Secures :
      (args : VerifyArgs) → Secures (verify_options os parse_time parse_local text args)
  unfolding verify_options
  verify_options-Secures args =
      search
        (
          Secures-bind,
          Secures-pure,
          Keeps-lift,
          signers_input-Prepares os,
          signature_input-Prepares,
          open_input-Prepares,
          restrict-Secures,
        )
        depth 14

  module _ (m : Machine) (ssh : Ssh) (decode_pem : Pem) where
    pub verify_run-Ends :
        (now : Time) (args : VerifyArgs)
        → Ends (verify_run os parse_time parse_local text m ssh decode_pem now args)
    unfolding verify_run
    verify_run-Ends now args =
        Ends-bind _ _ (Secures-within_list _ (verify_options-Secures args))
          (λ opts. Confines-work _)

  module _ (ssh : Ssh) (authorized_key : ssh.PublicKey → Bytes) where
    resolve_auth_key-Prepares :
        (key : Bytes) (no_auth_key : Bool)
        → Prepares (resolve_auth_key os ssh authorized_key key no_auth_key)
    unfolding resolve_auth_key
    resolve_auth_key-Prepares key no_auth_key =
        Prepares-if (not (is_nil key) && (not no_auth_key && may_be_alias ssh key)) _ _
          (search (prepares, Prepares-attempt, load_config-Prepares)) (search prepares)

    check_flags-Prepares :
        (args : CheckArgs)
        → Prepares (check_flags os parse_time parse_local text ssh authorized_key args)
    unfolding check_flags
    check_flags-Prepares args = search (prepares, resolve_auth_key-Prepares) depth 10

    check_options-Secures :
        (args : CheckArgs)
        → Secures (check_options os parse_time parse_local text ssh authorized_key args)
    unfolding check_options
    check_options-Secures args =
        search
          (
            Secures-bind, Secures-pure, check_flags-Prepares, Prepares-within_list,
            signature_input-Prepares, open_input-Prepares, Secures-within_list, restrict-Secures,
          )
          depth 14

    module _ (decode_pem : Pem) where
      pub check_run-Ends :
          (now : Time) (args : CheckArgs)
          → Ends (check_run os parse_time parse_local text ssh authorized_key decode_pem now args)
      unfolding check_run
      check_run-Ends now args = Ends-bind _ _ (check_options-Secures args) (λ opts. Confines-work _)

module _ (os : Os) (text : InputError → Bytes) where
  inspect_input-Secures : (path : Bytes) → Secures (inspect_input os text path)
  unfolding inspect_input
  inspect_input-Secures path =
      search (Secures-bind, Secures-pure, signature_input-Prepares, restrict-Secures)

  module _ (ssh : Ssh) (decode_pem : Pem) (fingerprint : ssh.PublicKey → Bytes)
      (application : Bytes → Bytes → Option Bytes) where
    pub inspect_run-Ends :
        (path : Bytes) → Ends (inspect_run os text ssh decode_pem fingerprint application path)
    unfolding inspect_run
    inspect_run-Ends path = Ends-within_list _ (
        Ends-bind _ _ (inspect_input-Secures path)
          (λ r. search (Keeps-bind, Keeps-lift, Confines-work)))

module _ (os : Os) where
  data_input-Prepares : (path : Bytes) → Prepares (data_input os path)
  unfolding data_input
  data_input-Prepares [] = search prepares
  data_input-Prepares (c ∷ path) = search open_input-Prepares

  connect-Prepares : (sock : Bytes) → Prepares (connect os sock)
  unfolding connect
  connect-Prepares [] = search prepares
  connect-Prepares (c ∷ sock) = search prepares

  connect_agent-Prepares : Prepares (connect_agent os)
  unfolding connect_agent
  connect_agent-Prepares = connect-Prepares (os.getenv (codes "SSH_AUTH_SOCK"))

module _ (os : Os) (ssh : Ssh) where
  open ssh use {PublicKey}

  config_for-Prepares : (ref : Bytes) → Prepares (config_for os ssh ref)
  unfolding config_for
  config_for-Prepares ref =
      Prepares-if (is_nil ref || may_be_alias ssh ref) _ _
        (search (prepares, Prepares-attempt, load_config-Prepares)) (search prepares)

  signing_key-Prepares : (ref : Bytes) → Prepares (signing_key os ssh ref)
  unfolding signing_key
  signing_key-Prepares ref = search (prepares, config_for-Prepares)

  sign_input-Secures : (args : SignArgs) → Secures (sign_input os ssh args)
  unfolding sign_input
  sign_input-Secures args = Secures-bind _ _ (signing_key-Prepares args.sign_key) (λ key.
      Secures-bind _ _ (data_input-Prepares os args.data_file) (λ r.
        Secures-bind _ _ (connect_agent-Prepares os) (λ _. Secures-pure _ _ (restrict-Secures os))))

  module _ (listed : Result Bytes (List (Signer PublicKey)))
      (new_cert_signer : Certificate PublicKey
        → Signer PublicKey
        → Result Bytes (Signer PublicKey)) where
    pub sign_run-Ends :
        (now : Time) (args : SignArgs) → Ends (sign_run os ssh listed new_cert_signer now args)
    unfolding sign_run
    sign_run-Ends now args = Ends-within_list _ (
        Ends-bind _ _ (sign_input-Secures args)
          (λ input. search (Keeps-bind, Keeps-lift, Confines-ask, Confines-work) depth 10))

-- ===== src/Cmd/Sign.antt =====
-- internal/cmd/sign.go: `SignCommand.Run`, and `ConnectAgent` of pkg/sshsig/agent.go. Debug output is
-- left out.
use ssh_sign.Prelude.{◌||◌, List, [], ◌∷◌, Option, some, if◌then◌else◌, is_nil, Result, ok, map_err}
use ssh_sign.Text.Bytes.{Bytes, codes}
use ssh_sign.Text.Scan.{Reader}
use ssh_sign.Ssh.{Ssh, Certificate}
use ssh_sign.Os.{Os, Action, pure, fail, lift, ◌>>=◌, ◌>>◌, dial_socket, ask, work}
use ssh_sign.Config.Ini.{Config, empty_config}
use ssh_sign.Sshsig.Structure.{Signature}
use ssh_sign.Sshsig.Protocol.{Signer}
use ssh_sign.Sshsig.Agent.{agent_signer}
use ssh_sign.Signers.Timestamp.{Time}
use ssh_sign.Flow.Sign.{sign_data}
use ssh_sign.Cmd.Keys.{may_be_alias}
use ssh_sign.Cmd.Choice.{
  ChoiceError, not_loaded, invalid_signing_key, invalid_config_key, missing_sign_key, sign_key,
}
use ssh_sign.Cmd.Failure.{
  signed_data, invalid_signing_key as bad_signing_key, invalid_config_key as bad_config_key,
  missing_sign_key as no_sign_key, no_agent_socket, connection_failed, agent_failed, signing_failed,
  Failure, plain, usage,
}
use ssh_sign.Cmd.Prepare.{Cmd, within_list, attempt, open_input, restrict, load_config}

-- The fields that the flags set.
pub record SignArgs : Type 0 where
  pub data_file : Bytes
  pub sign_key : Bytes
  pub namespace : Bytes

-- Which of the errors of the key's choice are marked as usage errors.
abbrev pub choice_failure : ChoiceError Failure → Failure
choice_failure (not_loaded f) = f
choice_failure (invalid_signing_key e) = usage (bad_signing_key e)
choice_failure (invalid_config_key path e) = plain (bad_config_key path e)
choice_failure missing_sign_key = usage no_sign_key

module _ (os : Os) where
  unfoldable pub data_input : Bytes → Action Failure Reader
  unfolding open_input
  data_input [] = pure os.stdin
  data_input (c ∷ path) = open_input os signed_data (c ∷ path)

  unfoldable pub connect : Bytes → Action Failure (Unit {0})
  unfolding dial_socket
  connect [] = fail (plain no_agent_socket)
  connect (c ∷ sock) = do
    answer ← dial_socket os (c ∷ sock)
    lift (map_err (λ e. plain (connection_failed (c ∷ sock) e)) answer)

  unfoldable pub connect_agent : Action Failure (Unit {0})
  unfolding connect
  connect_agent = connect (os.getenv (codes "SSH_AUTH_SOCK"))

module _ (os : Os) (ssh : Ssh) where
  open ssh use {PublicKey}

  -- The configuration is read only where it is needed.
  unfoldable pub config_for : Bytes → Action Failure (Result Failure Config)
  unfolding load_config may_be_alias
  config_for ref =
      if is_nil ref || may_be_alias ssh ref
      then attempt (load_config os ssh)
      else pure (ok empty_config)

  -- The key with the alias that stood for it.
  unfoldable pub signing_key : Bytes → Action Failure (PublicKey × Option Bytes)
  unfolding config_for sign_key
  signing_key ref = do
    loaded ← config_for ref
    lift (map_err choice_failure (sign_key ssh loaded ref))

  -- Everything up to the conversation with the agent: the key, and the data to sign.
  unfoldable pub sign_input : SignArgs → Action Failure (PublicKey × Reader)
  unfolding signing_key data_input connect_agent restrict
  sign_input args = do
    (pk, alias) ← signing_key args.sign_key
    r ← data_input os args.data_file
    connect_agent os
    restrict os
    pure (pk, r)

  -- `listed` is what the agent answers, and `new_cert_signer` stands for `ssh.NewCertSigner`.
  module _ (listed : Result Bytes (List (Signer PublicKey)))
      (new_cert_signer : Certificate PublicKey
        → Signer PublicKey
        → Result Bytes (Signer PublicKey)) where
    unfoldable pub sign_run : Time → SignArgs → Cmd (Signature PublicKey)
    unfolding sign_input ask work agent_signer sign_data
    sign_run now args = within_list (do
      (pk, r) ← sign_input args
      answer ← ask (agent_signer ssh new_cert_signer pk listed)
      signer ← lift (map_err (λ e. plain (agent_failed e)) answer)
      res ← work (
          sign_data ssh now
            (record { data_file = some r; namespace = args.namespace; signer = some signer }))
      lift (map_err (λ e. plain (signing_failed e)) res))

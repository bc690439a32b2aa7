-- ===== src/Cmd/Failure.antt =====
-- internal/cmd: the errors of the commands, and pkg/cli/error.go: which of them `cli.MarkUsage` has
-- marked.
use ssh_sign.Prelude.{ℕ, Bool, true, false, List, map}
use ssh_sign.Text.Bytes.{Bytes}
use ssh_sign.Os.{OsError}
use ssh_sign.Helper.{TimestampError}
use ssh_sign.Config.Files.{FileError}
use ssh_sign.Sshsig.Armored.{ArmorError}
use ssh_sign.Sshsig.Agent.{AgentError}
use ssh_sign.Flow.Choice.{FlowError}
use ssh_sign.Flow.Sign.{SignError}
use ssh_sign.Cmd.Keys.{ReferenceError}

-- The input that could not be opened.
pub data Role : Type 0 where
  signature verified_data signed_data allowed_signers : Role

pub data Problem : Type 0 where
  invalid_timestamp : Bytes → TimestampError → Problem
  config_failed : FileError → Problem
  invalid_auth_key invalid_signing_key : ReferenceError → Problem
  invalid_config_key : Bytes → ReferenceError → Problem
  missing_sign_key no_agent_socket : Problem
  no_config_dir : Bytes → Problem
  no_signers : Bytes → Problem
  open_failed : Role → Bytes → OsError → Problem
  unreadable_signers : Bytes → Bytes → Problem
  signers_exceed : ℕ → Bytes → Problem
  confinement_failed : Bytes → Problem
  connection_failed : Bytes → Bytes → Problem
  agent_failed : AgentError → Problem
  flow_failed : FlowError → Problem
  signing_failed : SignError → Problem
  inspection_failed : ArmorError → Problem

-- An error, and a `*cli.UsageError` around one.
pub data Failure : Type 0 where
  plain : Problem → Failure
  usage : Problem → Failure

-- `cli.IsUsageError`
abbrev pub is_usage_error : Failure → Bool
is_usage_error (plain p) = false
is_usage_error (usage p) = true

abbrev pub Failures : Type 0
Failures = List Failure

abbrev pub flow_errors : List FlowError → Failures
flow_errors = map (λ e. plain (flow_failed e))

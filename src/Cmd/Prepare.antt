-- ===== src/Cmd/Prepare.antt =====
-- internal/cmd/config.go, landlock.go and signature_stdin.go: what the commands do before a flow:
-- they read the configuration and the signers files, open their inputs and restrict themselves.
pub mod Ordered
use ssh_sign.Prelude.{
  ℕ, ◌+◌, ◌-◌, ◌*◌, ◌^◌, Bool, ◌&&◌, List, [], ◌∷◌, ◌++◌, Option, none, some, if◌then◌else◌, ltb,
  length, is_nil, Result, ok, err, map_err,
}
use ssh_sign.Text.Bytes.{Bytes, codes}
use ssh_sign.Text.Scan.{Reader}
use ssh_sign.Ssh.{Ssh}
use ssh_sign.Os.{
  OsError, OpenFile, Os, Action, pure, fail, lift, ◌>>=◌, ◌>>◌, open_path, enforce_rules,
}
use ssh_sign.Config.Ini.{Config, empty_config}
use ssh_sign.Config.Files.{
  FileError, File, dir, load, signers_files, check_open_file, signers_dir_name,
}
use ssh_sign.Flow.Choice.{NamedReader}
use ssh_sign.Sshsig.Armored.{read_limited}
use ssh_sign.Cmd.Inputs.{InputError, stdin_signature}
use ssh_sign.Cmd.Failure.{
  Role, signature, allowed_signers, Problem, config_failed, no_config_dir, no_signers, open_failed,
  unreadable_signers, signers_exceed, confinement_failed, Failure, plain, usage, Failures,
}

abbrev pub Cmd : Type 0 → Type 0
Cmd = Action Failures

-- `[]error{err}` around the errors of a step.
abbrev pub within_list : {A : Type 0} → Action Failure A → Cmd A
within_list m h = let (r, h') = m h in (map_err (λ e. e ∷ []) r, h')

-- The result of a step, as a value.
abbrev pub attempt : {E F A : Type 0} → Action E A → Action F (Result E A)
attempt m h = let (r, h') = m h in (ok r, h')

abbrev from_file : {A : Type 0} → File A → Action Failure A
from_file m h = let (r, h') = m h in (map_err (λ e. plain (config_failed e)) r, h')

abbrev pub max_signers_size : ℕ
max_signers_size = 64 * 2 ^ 20

abbrev pub named_reader : Bytes → Bytes → NamedReader
named_reader path content = record {
  name = path;
  reader = some (record { content = content; failure = none });
}

module _ (os : Os) where
  -- `os.Open` with the message of a command's input
  unfoldable pub open_input : Role → Bytes → Action Failure Reader
  unfolding open_path
  open_input role path = do
    answer ← open_path os path
    f ← lift (map_err (λ e. plain (open_failed role path e)) answer)
    pure f.reader

  -- `signatureFileOrDefault`
  unfoldable pub signature_file_or_default : Bytes → Bytes → Bytes
  signature_file_or_default path verify_file =
      if is_nil path && os.stdin_is_terminal then verify_file ++ codes ".sig" else path

  -- What a flow reads from a `signatureStdinReader` over standard input. `text` gives the message
  -- of an error, with which the reader ends.
  abbrev pub stdin_reader : (InputError → Bytes) → Reader
  stdin_reader text = elim (stdin_signature os.stdin) [
    | ok body ↦ record { content = body; failure = none }
    | err e ↦ record { content = []; failure = some (text e) }
  ]

  -- The signature's reader: standard input if the path is empty.
  unfoldable pub signature_input : (InputError → Bytes) → Bytes → Action Failure Reader
  unfolding open_input stdin_signature
  signature_input text [] = pure (stdin_reader text)
  signature_input text (c ∷ path) = open_input signature (c ∷ path)

  default_in : Result Bytes Bytes → Action Failure (List Bytes)
  unfolding signers_files
  default_in (err e) = fail (usage (no_config_dir e))
  default_in (ok d) = do
    paths ← from_file (signers_files os d)
    lift (
        if is_nil paths
        then err (usage (no_signers (os.join (d ∷ signers_dir_name ∷ []))))
        else ok paths)

  unfoldable pub default_signers_files : Action Failure (List Bytes)
  unfolding default_in dir
  default_signers_files = default_in (dir os)

  -- A round of `readSignersFiles` on an opened file that is safe: its content within the limit.
  abbrev pub signers_content : ℕ → ℕ → Bytes → Reader → Result Failure Bytes
  signers_content limit remaining path r = elim (read_limited (remaining + 1) r) [
    | err e ↦ err (plain (unreadable_signers path e))
    | ok content ↦
        if ltb remaining (length content)
        then err (plain (signers_exceed limit path))
        else ok content
  ]

  unfoldable pub read_signers : ℕ → ℕ → List Bytes → Action Failure (List NamedReader)
  unfolding check_open_file open_path read_limited
  read_signers limit remaining [] = pure []
  read_signers limit remaining (path ∷ paths) = do
    answer ← open_path os path
    f ← lift (map_err (λ e. plain (open_failed allowed_signers path e)) answer)
    lift (map_err (λ e. plain (config_failed e)) (check_open_file os path f))
    content ← lift (signers_content limit remaining path f.reader)
    files ← read_signers limit (remaining - length content) paths
    pure (named_reader path content ∷ files)

  -- `restrict`
  unfoldable pub restrict : Action Failure (Unit {0})
  unfolding enforce_rules
  restrict = do answer ← enforce_rules os; lift (map_err (λ e. plain (confinement_failed e)) answer)

module _ (os : Os) (ssh : Ssh) where
  -- Without a home or a configuration directory the configuration is empty.
  config_in : Result Bytes Bytes → Action Failure Config
  unfolding load
  config_in (err e) = pure empty_config
  config_in (ok d) = from_file (load os ssh d)

  unfoldable pub load_config : Action Failure Config
  unfolding config_in dir
  load_config = config_in (dir os)

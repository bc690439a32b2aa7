-- ===== src/Main/Status.antt =====
-- What the exit status tells of a command that has run.
use ssh_sign.Prelude.{
  ◌≤◌, Bool, true, false, ◌&&◌, [], ◌∷◌, ◌++◌, Option, none, some, if◌then◌else◌, is_nil, is_ok,
  any, ok, err, ◌≡◌, ◌↔◌, arith,
}
use ssh_sign.Text.Bytes.{Bytes}
use ssh_sign.Ssh.{Ssh}
use ssh_sign.Cli.Escape.{escape_json_controls}
use ssh_sign.Cmd.Failure.{is_usage_error}
use ssh_sign.Main.{World, Output, CliResult, Exit, exit_json, exit_value, exit_result, output_text}

module _ (ssh : Ssh) (w : World ssh) where
  open ssh use {PublicKey}

  -- The result can be put into JSON and written, or its text can be.
  abbrev pub is_json_written : CliResult PublicKey → Bool
  is_json_written res = elim (w.marshal res) [
    | err e ↦ false
    | ok out ↦ is_ok (w.write (escape_json_controls out ++ b'\n' ∷ []))
  ]

  abbrev pub is_text_written : Option (Output PublicKey) → Bool
  is_text_written none = true
  is_text_written (some out) = is_ok (w.write (output_text ssh w out ++ b'\n' ∷ []))

  abbrev pub is_shown : Bool → CliResult PublicKey → Bool
  is_shown json res = if json then is_json_written res else is_text_written res.value

  abbrev pub HasStatus : Exit → Bool → Bool → Type 0
  HasStatus exit usage success =
      ((exit.status ≡ 2) ↔ (usage ≡ true))
      × ((exit.status ≡ 0) ↔ (success ≡ true))
      × (exit.status ≤ 2)

  -- After a command has run, the status is 2 exactly if one of the errors is a usage error, and 0
  -- exactly if there is no error and what is to be shown could be made and written; otherwise it
  -- is 1.
  pub exit_result-HasStatus :
      (name : Bytes) (json : Bool) (res : CliResult PublicKey)
      → HasStatus
          (exit_result ssh w name json res)
          (any is_usage_error res.errors)
          (is_nil res.errors && is_shown json res)
  unfolding exit_result exit_json exit_value
  exit_result-HasStatus name json res = ground arith

-- ===== src/Cmd/Choice.antt =====
-- internal/cmd/sign.go: the key that the sign command works with. `loaded` is what
-- `loadConfig` answers when it is called.
pub mod Lazy
use ssh_sign.Prelude.{
  Bool, not, ◌||◌, Option, none, some, if◌then◌else◌, is_nil, Result, ok, err, map_err, ◌>>=◌,
}
use ssh_sign.Text.Bytes.{Bytes}
use ssh_sign.Ssh.{Ssh}
use ssh_sign.Config.Ini.{Config, empty_config}
use ssh_sign.Cmd.Keys.{ReferenceError, may_be_alias, resolve_key_reference}

-- The key's error comes from the option or from the file at a path.
pub data ChoiceError (E : Type 0) : Type 0 where
  not_loaded : E → ChoiceError E
  invalid_signing_key : ReferenceError → ChoiceError E
  invalid_config_key : Bytes → ReferenceError → ChoiceError E
  missing_sign_key : ChoiceError E

module _ (ssh : Ssh) {E : Type 0} where
  open ssh use {PublicKey}

  -- The `switch` of `SignCommand.Run`: the key of the option, or that of the configuration.
  unfoldable pub chosen_key : Config → Bytes → Result (ChoiceError E) (PublicKey × Option Bytes)
  chosen_key cfg ref =
      if not (is_nil ref)
      then map_err invalid_signing_key (resolve_key_reference ssh cfg ref)
      else if not (is_nil cfg.sign_key)
      then map_err (invalid_config_key cfg.path) (resolve_key_reference ssh cfg cfg.sign_key)
      else err missing_sign_key

  -- The configuration is read only if there is no key among the options or it may be an alias.
  unfoldable pub needed_config : Result E Config → Bytes → Result (ChoiceError E) Config
  needed_config loaded ref =
      if is_nil ref || may_be_alias ssh ref then map_err not_loaded loaded else ok empty_config

  unfoldable pub sign_key :
      Result E Config → Bytes → Result (ChoiceError E) (PublicKey × Option Bytes)
  unfolding chosen_key needed_config
  sign_key loaded ref = do cfg ← needed_config loaded ref; chosen_key cfg ref

-- ===== src/Cmd/Choice/Lazy.antt =====
-- Reading the configuration only when it is needed makes no difference.
use ssh_sign.Prelude.{
  ◌≡◌, ap, arith, false, ◌||◌, is_nil, Bool-cases, inl, inr, ◌⊎◌, Result, ok, map_err,
}
use ssh_sign.Text.Bytes.{Bytes}
use ssh_sign.Ssh.{Ssh}
use ssh_sign.Config.Ini.{Config, empty_config}
use ssh_sign.Cmd.Keys.{may_be_alias}
use ssh_sign.Cmd.Keys.Resolve.{resolve_key_reference-may_be_alias}
use ssh_sign.Cmd.Choice.{invalid_signing_key, chosen_key, needed_config, sign_key}

module _ (ssh : Ssh) {E : Type 0} where
  sign_key-unread :
      (cfg : Config) (loaded : Result E Config) (ref : Bytes)
      → is_nil ref ≡ false
      → may_be_alias ssh ref ≡ false
      → sign_key ssh {E = E} loaded ref ≡ chosen_key ssh {E = E} cfg ref
  unfolding sign_key needed_config chosen_key
  sign_key-unread cfg loaded ref n a =
      rw (n, a)
        (ap (map_err invalid_signing_key)
          (resolve_key_reference-may_be_alias ssh empty_config cfg ref a))

  -- The key to sign with is the one that a configuration chooses, where that configuration is the
  -- one that is read, or where the option names a key that may be no alias. In the second case it
  -- does not matter whether a configuration can be read at all.
  pub sign_key-chosen_key :
      (cfg : Config) (loaded : Result E Config) (ref : Bytes)
      → (loaded ≡ ok cfg) ⊎ ((is_nil ref ≡ false) × (may_be_alias ssh ref ≡ false))
      → sign_key ssh {E = E} loaded ref ≡ chosen_key ssh {E = E} cfg ref
  unfolding sign_key needed_config
  sign_key-chosen_key cfg loaded ref (inr (n, a)) = sign_key-unread cfg loaded ref n a
  sign_key-chosen_key cfg loaded ref (inl e) =
      elim (Bool-cases (is_nil ref || may_be_alias ssh ref)) [
        | inl t ↦ rw (e, t)
        | inr f ↦ sign_key-unread cfg loaded ref (ground arith) (ground arith)
      ]

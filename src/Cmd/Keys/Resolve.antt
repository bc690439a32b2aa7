-- ===== src/Cmd/Keys/Resolve.antt =====
-- When a reference reads the configuration, and what it resolves to.
use ssh_sign.Prelude.{false, some, ◌≡◌, refl, ap, arith, Result, ok, err, is_ok}
use ssh_sign.Text.Bytes.{Bytes}
use ssh_sign.Text.Scan.{Reader}
use ssh_sign.Ssh.{Ssh}
use ssh_sign.Sshsig.PublicKey.{KeyError, parse_public_key_line}
use ssh_sign.Config.Ini.{Config, alias, valid_alias_name, parse}
use ssh_sign.Config.Ini.Sound.{IsAlias, alias-parse}
use ssh_sign.Cmd.Keys.{may_be_alias, resolve_alias, resolve_key_reference}

module _ (ssh : Ssh) where
  -- A reference that cannot be an alias resolves in the same way under every configuration.
  pub resolve_key_reference-may_be_alias :
      (cfg cfg' : Config) (ref : Bytes)
      → may_be_alias ssh ref ≡ false
      → resolve_key_reference ssh cfg ref ≡ resolve_key_reference ssh cfg' ref
  unfolding may_be_alias resolve_key_reference
  resolve_key_reference-may_be_alias cfg cfg' ref h = go (parse_public_key_line ssh ref) refl
    where
      go :
          (r : Result KeyError ssh.PublicKey)
          → parse_public_key_line ssh ref ≡ r
          → resolve_key_reference ssh cfg ref ≡ resolve_key_reference ssh cfg' ref
      go (ok pk) e = rw (e, resolve_key_reference)
      go (err x) e =
          let unnamed : valid_alias_name ref ≡ false = ground (arith, ap is_ok e) in
          rw (e, resolve_key_reference, unnamed)

  -- With a configuration that was parsed, every alias in it resolves, under its name, to the key
  -- of its line.
  pub resolve_key_reference-parse :
      (r : Reader) (cfg : Config) (ref line : Bytes)
      → parse ssh r ≡ ok cfg
      → alias ref cfg.aliases ≡ some line
      → (pk : ssh.PublicKey) × (parse_public_key_line ssh line ≡ ok pk)
        × (resolve_key_reference ssh cfg ref ≡ ok (pk, some ref))
  unfolding resolve_key_reference resolve_alias
  resolve_key_reference-parse r cfg ref line p h =
      let w = alias-parse ssh r cfg ref line p h in
      go w (parse_public_key_line ssh ref) (parse_public_key_line ssh line) refl refl
    where
      go :
          (w : IsAlias ssh ref line) (a b : Result KeyError ssh.PublicKey)
          → parse_public_key_line ssh ref ≡ a
          → parse_public_key_line ssh line ≡ b
          → (pk : ssh.PublicKey) × (parse_public_key_line ssh line ≡ ok pk)
            × (resolve_key_reference ssh cfg ref ≡ ok (pk, some ref))
      go w (ok pk) b e e' = cc (ap is_ok e, w.no_key)
      go w (err x) (err y) e e' = cc (ap is_ok e', w.key)
      go w (err x) (ok pk) e e' =
          (pk, e', rw (resolve_key_reference, e, w.valid, resolve_alias, h) (rw e'))

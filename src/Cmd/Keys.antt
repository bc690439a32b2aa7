-- ===== src/Cmd/Keys.antt =====
-- internal/cmd/config.go: references to keys.
pub mod Resolve
use ssh_sign.Prelude.{
  ℕ, Bool, true, false, not, ◌&&◌, ◌||◌, List, Option, none, some, if◌then◌else◌, Result, ok, err,
  is_ok, ◌>>=◌,
}
use ssh_sign.Text.Bytes.{Bytes}
use ssh_sign.Ssh.{Ssh}
use ssh_sign.Sshsig.PublicKey.{KeyError, parse_public_key_line}
use ssh_sign.Config.Ini.{Config, alias, valid_alias_name}

pub data ReferenceError : Type 0 where
  not_a_key : KeyError → ReferenceError
  neither : Bytes → KeyError → ReferenceError
  bad_alias : Bytes → KeyError → ReferenceError

module _ (ssh : Ssh) where
  unfoldable pub may_be_alias : Bytes → Bool
  may_be_alias ref = not (is_ok (parse_public_key_line ssh ref)) && valid_alias_name ref

  -- An alias's line; `e` is why the reference is no key.
  unfoldable pub resolve_alias :
      Config → Bytes → KeyError → Result ReferenceError (ssh.PublicKey × Option Bytes)
  resolve_alias cfg ref e = elim (alias ref cfg.aliases) [
    | none ↦ err (neither ref e)
    | some line ↦ elim (parse_public_key_line ssh line) [
      | err e' ↦ err (bad_alias ref e')
      | ok pk ↦ ok (pk, some ref)
    ]
  ]

  -- The key, and the alias's name if one was used.
  unfoldable pub resolve_key_reference :
      Config → Bytes → Result ReferenceError (ssh.PublicKey × Option Bytes)
  unfolding resolve_alias
  resolve_key_reference cfg ref = elim (parse_public_key_line ssh ref) [
    | ok pk ↦ ok (pk, none)
    | err e ↦ if not (valid_alias_name ref) then err (not_a_key e) else resolve_alias cfg ref e
  ]

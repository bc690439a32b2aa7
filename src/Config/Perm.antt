-- ===== src/Config/Perm.antt =====
-- internal/config/perm_unix.go: `checkOwnerAndMode`. A mode's low nine bits are its permissions.
use Prim.Native.Nat.{bit_and}
use ssh_sign.Prelude.{ℕ, ◌%◌, not, ◌&&◌, ◌==◌, if◌then◌else◌, Result, ok, err}

pub data PermError : Type 0 where
  owned_by : ℕ → PermError
  writable : ℕ → PermError

abbrev pub perm : ℕ → ℕ
perm mode = mode % 512

unfoldable pub check_owner_and_mode : ℕ → ℕ → ℕ → Result PermError (Unit {0})
check_owner_and_mode mode uid self =
    if not (uid == self) && not (uid == 0)
    then err (owned_by uid)
    else if not (bit_and (perm mode) 0o022 == 0)
    then err (writable (perm mode))
    else ok tt

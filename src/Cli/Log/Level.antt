-- ===== src/Cli/Log/Level.antt =====
-- The verbosity selects the levels that are written.
use ssh_sign.Prelude.{
  ℕ, ◌*◌, ◌+◌, leb, Bool, false, ◌&&◌, Option, none, some, ◌≡◌, arith, ℤ, negsuc,
}
use ssh_sign.Cli.Log.{Handler, new_logger, enabled}

abbrev pub is_written : Option Handler → ℤ → Bool
is_written none level = false
is_written (some h) level = enabled h level

-- The level of `-v` given `k + 1` times.
abbrev pub debug_level : ℕ → ℤ
debug_level k = negsuc (4 * k + 3)

-- A message of the level that `k + 1` times `-v` selects is written exactly if `-v` is given that
-- often, for the three levels; a fourth `-v` selects no more.
pub new_logger-is_written :
    (verbosity k : ℕ)
    → is_written (new_logger verbosity) (debug_level k) ≡ (leb (k + 1) verbosity && leb k 2)
unfolding new_logger enabled
new_logger-is_written verbosity k = ground arith

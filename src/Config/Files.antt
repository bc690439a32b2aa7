-- ===== src/Config/Files.antt =====
-- internal/config/config.go: the configuration directory, its file, and the signers files in it.
-- `checkInfo` and `CheckOpenFile` are those of perm_unix.go.
pub mod Ordered
use ssh_sign.Prelude.{
  ℕ, Bool, not, ◌&&◌, ◌||◌, List, [], ◌∷◌, Option, none, some, if◌then◌else◌, is_nil, Result, ok,
  err, map_err,
}
use ssh_sign.Text.Bytes.{Bytes, codes, has_prefix, has_suffix}
use ssh_sign.Ssh.{Ssh}
use ssh_sign.Os.{
  OsError, not_exist, other, FileInfo, OpenFile, Os, Action, pure, fail, lift, ◌>>=◌, ◌>>◌,
  open_path, stat_path, list_dir,
}
use ssh_sign.Config.Ini.{Config, empty_config, ConfigError, parse}
use ssh_sign.Config.Perm.{PermError, check_owner_and_mode}

-- The path with what is wrong there; `bare` is an error of `f.Stat`, which has no context.
pub data FileError : Type 0 where
  config_file config_dir signers_dir signers_file : Bytes → OsError → FileError
  bare : OsError → FileError
  no_owner not_regular : Bytes → FileError
  unsafe : Bytes → PermError → FileError
  bad_config : Bytes → ConfigError → FileError

abbrev pub dir_env : Bytes
dir_env = codes "SSH_SIGN_CONFIG_DIR"

abbrev pub file_name : Bytes
file_name = codes "config"

abbrev pub signers_dir_name : Bytes
signers_dir_name = codes "signers"

abbrev pub File : Type 0 → Type 0
File = Action FileError

-- The entries of the signers directory that count.
abbrev pub is_signers_name : Bytes → Bool
is_signers_name name = not (has_prefix name (codes ".")) && has_suffix name (codes ".conf")

module _ (os : Os) where
  unfoldable pub dir : Result Bytes Bytes
  dir = if not (is_nil (os.getenv dir_env)) then ok (os.getenv dir_env) else elim (os.home) [
    | ok home ↦ ok (os.join (home ∷ codes ".ssh" ∷ codes "sign" ∷ []))
    | err e ↦ err e
  ]

  abbrev owner_and_mode : Bytes → ℕ → Option ℕ → Result FileError (Unit {0})
  owner_and_mode path mode none = err (no_owner path)
  owner_and_mode path mode (some uid) =
      map_err (unsafe path) (check_owner_and_mode mode uid os.user)

  unfoldable pub check_info : Bytes → FileInfo → Result FileError (Unit {0})
  unfolding check_owner_and_mode
  check_info path info = owner_and_mode path info.mode info.owner

  unfoldable pub check_open_file : Bytes → OpenFile → Result FileError (Unit {0})
  unfolding check_info
  check_open_file path f = elim (f.info) [ err e ↦ err (bare e) | ok info ↦ check_info path info ]

  -- `os.Stat` with the check of what it answers.
  unfoldable pub check_path : (OsError → FileError) → Bytes → File FileInfo
  unfolding check_info stat_path
  check_path context path = do
    answer ← stat_path os path
    info ← lift (map_err context answer)
    lift (check_info path info)
    pure info

  -- `SignersFiles`: the two directories, then each entry.
  unfoldable pub signers_path : Bytes → File (Unit {0})
  unfolding check_info stat_path
  signers_path path = do
    answer ← stat_path os path
    info ← lift (map_err (signers_file path) answer)
    lift (if info.is_regular then ok tt else err (not_regular path))
    lift (check_info path info)

  unfoldable pub signers_paths : Bytes → List Bytes → File (List Bytes)
  unfolding signers_path
  signers_paths signers [] = pure []
  signers_paths signers (name ∷ names) =
      let rest = signers_paths signers names in
      if not (is_signers_name name) then rest else (do
        signers_path (os.join (signers ∷ name ∷ []))
        paths ← rest
        pure (os.join (signers ∷ name ∷ []) ∷ paths))

  listed_signers : Bytes → Bytes → Result OsError (List Bytes) → File (List Bytes)
  unfolding check_path signers_paths
  listed_signers d signers (err not_exist) = pure []
  listed_signers d signers (err (other e)) = fail (signers_dir signers (other e))
  listed_signers d signers (ok names) = do
    _ ← check_path (signers_dir d) d
    _ ← check_path (signers_dir signers) signers
    signers_paths signers names

  unfoldable pub signers_files : Bytes → File (List Bytes)
  unfolding listed_signers list_dir
  signers_files d =
      let signers = os.join (d ∷ signers_dir_name ∷ []) in
      do answer ← list_dir os signers; listed_signers d signers answer

module _ (os : Os) (ssh : Ssh) where
  -- A missing file gives an empty configuration.
  opened_config : Bytes → Bytes → Result OsError OpenFile → File Config
  unfolding check_path check_open_file
  opened_config d path (err not_exist) = pure empty_config
  opened_config d path (err (other e)) = fail (config_file path (other e))
  opened_config d path (ok f) = do
    _ ← check_path os (config_dir d) d
    lift (check_open_file os path f)
    cfg ← lift (map_err (bad_config path) (parse ssh f.reader))
    pure (record cfg { path = path })

  unfoldable pub load : Bytes → File Config
  unfolding opened_config open_path
  load d =
      let path = os.join (d ∷ file_name ∷ []) in
      do answer ← open_path os path; opened_config d path answer

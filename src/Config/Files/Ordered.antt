-- ===== src/Config/Files/Ordered.antt =====
-- The configuration is read before the rules are in force.
use ssh_sign.Prelude.{Bool, true, false, not, List, [], ◌∷◌, if◌then◌else◌, Result, ok, err}
use ssh_sign.Text.Bytes.{Bytes}
use ssh_sign.Ssh.{Ssh}
use ssh_sign.Os.{OsError, not_exist, other, OpenFile, Os, Action}
use ssh_sign.Os.Orderly.{Prepares, prepares, Keeps-bind}
use ssh_sign.Config.Files.{
  FileError, signers_path, signers_paths, listed_signers, signers_files, check_path, opened_config,
  load, is_signers_name,
}

module _ {E A : Type 0} where
  pub Prepares-if :
      (b : Bool) (m n : Action E A) → Prepares m → Prepares n → Prepares (if b then m else n)
  Prepares-if true m n km kn = km
  Prepares-if false m n km kn = kn

module _ (os : Os) where
  check_path-Prepares :
      (context : OsError → FileError) (path : Bytes) → Prepares (check_path os context path)
  unfolding check_path
  check_path-Prepares context path = search prepares

  signers_path-Prepares : (path : Bytes) → Prepares (signers_path os path)
  unfolding signers_path
  signers_path-Prepares path = search prepares

  signers_paths-Prepares :
      (signers : Bytes) (names : List Bytes) → Prepares (signers_paths os signers names)
  unfolding signers_paths
  signers_paths-Prepares signers [] = search prepares
  signers_paths-Prepares signers (name ∷ names) =
      Prepares-if (not (is_signers_name name)) _ _ (signers_paths-Prepares signers names) (
        Keeps-bind _ _ (signers_path-Prepares _)
          (λ _. Keeps-bind _ _ (signers_paths-Prepares signers names) (λ paths. search prepares)))

  listed_signers-Prepares :
      (d signers : Bytes) (answer : Result OsError (List Bytes))
      → Prepares (listed_signers os d signers answer)
  unfolding listed_signers
  listed_signers-Prepares d signers (err not_exist) = search prepares
  listed_signers-Prepares d signers (err (other e)) = search prepares
  listed_signers-Prepares d signers (ok names) =
      search (prepares, check_path-Prepares, signers_paths-Prepares)

  pub signers_files-Prepares : (d : Bytes) → Prepares (signers_files os d)
  unfolding signers_files
  signers_files-Prepares d = search (prepares, listed_signers-Prepares)

module _ (os : Os) (ssh : Ssh) where
  opened_config-Prepares :
      (d path : Bytes) (answer : Result OsError OpenFile)
      → Prepares (opened_config os ssh d path answer)
  unfolding opened_config
  opened_config-Prepares d path (err not_exist) = search prepares
  opened_config-Prepares d path (err (other e)) = search prepares
  opened_config-Prepares d path (ok f) = search (prepares, check_path-Prepares os)

  pub load-Prepares : (d : Bytes) → Prepares (load os ssh d)
  unfolding load
  load-Prepares d = search (prepares, opened_config-Prepares)

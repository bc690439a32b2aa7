-- ===== src/Cmd/Prepare/Ordered.antt =====
-- The commands read their inputs before they restrict themselves.
use ssh_sign.Prelude.{ℕ, ◌-◌, List, [], ◌∷◌, length, Result, ok, err, map_err}
use ssh_sign.Text.Bytes.{Bytes}
use ssh_sign.Ssh.{Ssh}
use ssh_sign.Os.{Os, Action, History}
use ssh_sign.Os.Orderly.{IsSecured, Prepares, Secures, Ends, prepares, Secures-enforce_rules}
use ssh_sign.Config.Files.{File, dir}
use ssh_sign.Config.Files.Ordered.{signers_files-Prepares, load-Prepares}
use ssh_sign.Cmd.Inputs.{InputError}
use ssh_sign.Cmd.Failure.{Role, confinement_failed, Failure, plain, Failures}
use ssh_sign.Cmd.Prepare.{
  within_list, attempt, from_file, open_input, signature_input, default_in, default_signers_files,
  read_signers, restrict, config_in, load_config,
}

module _ {A : Type 0} where
  pub Prepares-within_list : (m : Action Failure A) → Prepares m → Prepares (within_list m)
  Prepares-within_list m k = record { at = k.at }

  secured-list :
      (r : Result Failure A) (h : History)
      → IsSecured r h
      → IsSecured (map_err {F = Failures} (λ e. e ∷ []) r) h
  secured-list (ok a) h s = s
  secured-list (err e) h s = s

  pub Secures-within_list : (m : Action Failure A) → Secures m → Secures (within_list m)
  Secures-within_list m k = record { at = λ h p. let (r, h') = m h in secured-list r h' (k.at h p) }

  pub Ends-within_list : (m : Action Failure A) → Ends m → Ends (within_list m)
  Ends-within_list m k = record { at = k.at }

  pub Prepares-from_file : (m : File A) → Prepares m → Prepares (from_file m)
  Prepares-from_file m k = record { at = k.at }

  pub Prepares-attempt : {E F : Type 0} (m : Action E A) → Prepares m → Prepares (attempt {F = F} m)
  Prepares-attempt m k = record { at = k.at }

module _ (os : Os) where
  pub open_input-Prepares : (role : Role) (path : Bytes) → Prepares (open_input os role path)
  unfolding open_input
  open_input-Prepares role path = search prepares

  pub signature_input-Prepares :
      (text : InputError → Bytes) (path : Bytes) → Prepares (signature_input os text path)
  unfolding signature_input
  signature_input-Prepares text [] = search prepares
  signature_input-Prepares text (c ∷ path) = search open_input-Prepares

  default_in-Prepares : (d : Result Bytes Bytes) → Prepares (default_in os d)
  unfolding default_in
  default_in-Prepares (err e) = search prepares
  default_in-Prepares (ok d) = search (prepares, Prepares-from_file, signers_files-Prepares)

  pub default_signers_files-Prepares : Prepares (default_signers_files os)
  unfolding default_signers_files
  default_signers_files-Prepares = default_in-Prepares (dir os)

  pub read_signers-Prepares :
      (limit remaining : ℕ) (paths : List Bytes) → Prepares (read_signers os limit remaining paths)
  unfolding read_signers
  read_signers-Prepares limit remaining [] = search prepares
  read_signers-Prepares limit remaining (path ∷ paths) =
      search
        (
          prepares,
          λ (content : Bytes). read_signers-Prepares limit (remaining - length content) paths,
        )
        depth 14

  pub restrict-Secures : Secures (restrict os)
  unfolding restrict
  restrict-Secures = Secures-enforce_rules os (λ e. plain (confinement_failed e))

module _ (os : Os) (ssh : Ssh) where
  config_in-Prepares : (d : Result Bytes Bytes) → Prepares (config_in os ssh d)
  unfolding config_in
  config_in-Prepares (err e) = search prepares
  config_in-Prepares (ok d) = search (Prepares-from_file, load-Prepares)

  pub load_config-Prepares : Prepares (load_config os ssh)
  unfolding load_config
  load_config-Prepares = config_in-Prepares (dir os)

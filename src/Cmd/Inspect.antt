-- ===== src/Cmd/Inspect.antt =====
-- internal/cmd/inspect.go and version.go: `InspectCommand.Run` and `VersionCommand.Run`.
use ssh_sign.Prelude.{not, ◌&&◌, [], ◌∷◌, Option, none, some, if◌then◌else◌, is_nil, map_err}
use ssh_sign.Text.Bytes.{Bytes, codes, bytes_eq}
use ssh_sign.Text.Scan.{Reader}
use ssh_sign.Ssh.{Ssh}
use ssh_sign.Os.{Os, Action, pure, lift, ◌>>=◌, ◌>>◌, work}
use ssh_sign.Sshsig.Armored.{Pem}
use ssh_sign.Sshsig.Info.{SignatureInfo}
use ssh_sign.Flow.Inspect.{inspect}
use ssh_sign.Cmd.Inputs.{InputError}
use ssh_sign.Cmd.Failure.{Failure, plain, flow_failed}
use ssh_sign.Cmd.Prepare.{Cmd, within_list, signature_input, restrict}

module _ (os : Os) (text : InputError → Bytes) where
  unfoldable pub inspect_input : Bytes → Action Failure Reader
  unfolding signature_input restrict
  inspect_input signature_file = do r ← signature_input os text signature_file; restrict os; pure r

  module _ (ssh : Ssh) (decode_pem : Pem) (fingerprint : ssh.PublicKey → Bytes)
      (application : Bytes → Bytes → Option Bytes) where
    unfoldable pub inspect_run : Bytes → Cmd SignatureInfo
    unfolding inspect_input work inspect
    inspect_run signature_file = within_list (do
      r ← inspect_input signature_file
      res ← work (inspect ssh decode_pem fingerprint application (some r))
      lift (map_err (λ e. plain (flow_failed e)) res))

-- `resolveVersion`: `info` is the main module's version in the build information, if there is any.
unfoldable pub resolve_version : Bytes → Option Bytes → Bytes
unfolding bytes_eq
resolve_version (c ∷ set) info = c ∷ set
resolve_version [] none = codes "unknown"
resolve_version [] (some version) =
    if not (is_nil version) && not (bytes_eq version (codes "(devel)"))
    then version
    else codes "unknown"

-- ===== src/Flow/Inspect.antt =====
-- pkg/flow/inspect.go: `Inspect`. Debug output is left out.
use ssh_sign.Prelude.{Option, Result, map_err, ◌>>=◌, ok}
use ssh_sign.Text.Bytes.{Bytes, codes}
use ssh_sign.Text.Scan.{Reader}
use ssh_sign.Ssh.{Ssh}
use ssh_sign.Sshsig.Armored.{Pem, signature_read}
use ssh_sign.Sshsig.Info.{SignatureInfo, new_signature_info}
use ssh_sign.Flow.Choice.{FlowError, unreadable_signature, require}

module _ (ssh : Ssh) (decode_pem : Pem) (fingerprint : ssh.PublicKey → Bytes)
    (application : Bytes → Bytes → Option Bytes) where
  unfoldable pub inspect : Option Reader → Result FlowError SignatureInfo
  unfolding signature_read new_signature_info
  inspect signature_file = do
    r ← require (codes "signature file") signature_file
    sig ← map_err unreadable_signature (signature_read ssh decode_pem r)
    ok (new_signature_info ssh fingerprint application sig)

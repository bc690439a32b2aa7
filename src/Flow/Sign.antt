-- ===== src/Flow/Sign.antt =====
-- pkg/flow/sign.go: `Sign`. Debug output is left out, and `now` is the clock. A signer that is there
-- has a public key.
pub mod Checked
use ssh_sign.Prelude.{Option, none, some, Result, ok, err, map_err, guard, ◌>>=◌, ◌>>◌}
use ssh_sign.Text.Bytes.{Bytes, codes}
use ssh_sign.Text.Scan.{Reader}
use ssh_sign.Ssh.{Ssh}
use ssh_sign.Sshsig.Certificate.{CertError, certificate_valid_at}
use ssh_sign.Sshsig.Structure.{Signature, SigError}
use ssh_sign.Sshsig.Protocol.{Signer, signature_create}
use ssh_sign.Signers.Timestamp.{Time}
use ssh_sign.Flow.Choice.{FlowError, require}

pub record SignOpts (K : Type 0) : Type 0 where
  pub data_file : Option Reader
  pub namespace : Bytes
  pub signer : Option (Signer K)

pub data SignError : Type 0 where
  refused_options : FlowError → SignError
  signer_missing : SignError
  key_refused : CertError → SignError
  not_created : SigError → SignError

abbrev pub require_signer : {K : Type 0} → Option (Signer K) → Result SignError (Signer K)
require_signer none = err signer_missing
require_signer (some s) = ok s

module _ (ssh : Ssh) where
  open ssh use {PublicKey}

  -- The certificate is checked before the signer is asked.
  unfoldable pub sign_data : Time → SignOpts PublicKey → Result SignError (Signature PublicKey)
  sign_data now opts = do
    r ← map_err refused_options (require (codes "data file") opts.data_file)
    signer ← require_signer opts.signer
    map_err key_refused (certificate_valid_at ssh signer.public_key now)
    map_err not_created (signature_create ssh (some signer) opts.namespace r)

-- ===== src/Flow/Choice.antt =====
-- pkg/flow/choice.go, named.go and reader.go, the statuses that the commands report, and their
-- errors.
pub mod Laws
use ssh_sign.Prelude.{
  Bool, not, ◌&&◌, List, [], ◌∷◌, ◌++◌, Option, none, some, if◌then◌else◌, is_nil, Result, ok, err,
  map_err, ◌>>=◌,
}
use ssh_sign.Text.Bytes.{Bytes}
use ssh_sign.Text.Scan.{Reader, ScanError}
use ssh_sign.Ssh.{Ssh}
use ssh_sign.Sshsig.PublicKey.{KeyError, parse_public_key_line}
use ssh_sign.Sshsig.Certificate.{CertError}
use ssh_sign.Sshsig.Structure.{SigError}
use ssh_sign.Sshsig.Armored.{ArmorError}
use ssh_sign.Sshsig.Protocol.{is_read_error}
use ssh_sign.Signers.Match.{ConstraintError}

pub data Status : Type 0 where
  valid invalid disabled : Status

pub data FlowError : Type 0 where
  required : Bytes → FlowError
  exclusive_signers : FlowError
  namespace_but_disabled namespace_missing key_but_disabled key_missing : FlowError
  bad_auth_key : KeyError → FlowError
  signers_failed : Bytes → ScanError → FlowError
  unreadable_signature : ArmorError → FlowError
  unverified_namespace : Bytes → FlowError
  other_namespace : Bytes → Bytes → FlowError
  other_key : FlowError
  failed_constraints : Bytes → ConstraintError → FlowError
  not_found : Bytes → FlowError
  certificate_refused : CertError → FlowError
  read_failed : SigError → FlowError
  not_verified : SigError → FlowError

-- A reader that may be nil, with its name.
pub record NamedReader : Type 0 where
  pub name : Bytes
  pub reader : Option Reader

abbrev pub require : Bytes → Option Reader → Result FlowError Reader
require name none = err (required name)
require name (some r) = ok r

unfoldable pub check_namespace : Bytes → Bool → Result FlowError (Unit {0})
check_namespace ns no_namespace =
    if not (is_nil ns) && no_namespace
    then err namespace_but_disabled
    else if is_nil ns && not no_namespace
    then err namespace_missing
    else ok tt

-- Errors are gathered, so that one check does not hide another.
abbrev pub errors_of : Result FlowError (Unit {0}) → List FlowError
errors_of (ok _) = []
errors_of (err e) = e ∷ []

-- `fmt.Errorf("signature %w", err)` of the certificate's check
abbrev pub certificate_errors : Result CertError (Unit {0}) → List FlowError
certificate_errors (ok _) = []
certificate_errors (err e) = certificate_refused e ∷ []

module _ (ssh : Ssh) where
  unfoldable pub check_auth_key : Bytes → Bool → Result FlowError (Unit {0})
  check_auth_key key no_auth_key =
      if not (is_nil key) && no_auth_key
      then err key_but_disabled
      else if is_nil key && not no_auth_key
      then err key_missing
      else if not (is_nil key)
      then map_err bad_auth_key (do _ ← parse_public_key_line ssh key; ok tt)
      else ok tt

-- The `switch` over the result of `SignatureVerify`, which both commands make: a read failure
-- leaves no result, and another failure is reported with the result. `finish` gives the result
-- from its `Verification` field.
module _ {R : Type 0} where
  unfoldable pub with_verification :
      Result SigError (Unit {0}) → List FlowError → (Status → R) → Option R × List FlowError
  with_verification (ok _) errs finish = (some (finish valid), errs)
  with_verification (err e) errs finish =
      if is_read_error e
      then (none, errs ++ read_failed e ∷ [])
      else (some (finish invalid), errs ++ not_verified e ∷ [])

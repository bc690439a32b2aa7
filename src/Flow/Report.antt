-- ===== src/Flow/Report.antt =====
-- pkg/flow: the `String` and `ColorString` methods of the results, and that of `VerifyEntry`.
use ssh_sign.Prelude.{
  ℕ, Bool, false, List, [], ◌∷◌, ◌++◌, Option, none, some, if◌then◌else◌, is_nil, negsuc,
}
use ssh_sign.Text.Bytes.{Bytes, codes}
use ssh_sign.Text.Numbers.{decimal}
use ssh_sign.Text.Utf8.{trim_space}
use ssh_sign.Ssh.{Ssh}
use ssh_sign.Sshsig.Structure.{Signature}
use ssh_sign.Sshsig.Armor.{armor}
use ssh_sign.Sshsig.Info.{SecurityKeyInfo, SignatureInfo, flags_text}
use ssh_sign.Cli.Format.{text, number, Field, kv, status_kv, format_kv}
use ssh_sign.Flow.Choice.{Status, valid, invalid, disabled}
use ssh_sign.Flow.Verify.{VerifyEntry, VerifyResult}
use ssh_sign.Flow.Check.{CheckResult}

unfoldable pub status_text : Status → Bytes
status_text valid = codes "valid"
status_text invalid = codes "invalid"
status_text disabled = codes "disabled"

unfoldable pub entry_text : VerifyEntry → Bytes
unfolding decimal
entry_text e =
    if is_nil e.file then codes "line " ++ decimal e.line else e.file ++ (b':' ∷ decimal e.line)

abbrev pub entry_field : Option VerifyEntry → List Field
entry_field none = []
entry_field (some e) = kv (codes "entry") (text (entry_text e)) ∷ []

unfoldable pub verify_fields : VerifyResult → List Field
unfolding status_text entry_text
verify_fields r =
    kv (codes "principal") (text r.principal)
    ∷ status_kv (codes "authentication") (status_text r.authentication)
    ∷ kv (codes "namespace") (text r.namespace)
    ∷ status_kv (codes "designation") (status_text r.designation)
    ∷ status_kv (codes "verification") (status_text r.verification)
    ∷ entry_field r.entry

unfoldable pub check_fields : CheckResult → List Field
unfolding status_text
check_fields r =
    status_kv (codes "authentication") (status_text r.authentication)
    ∷ status_kv (codes "designation") (status_text r.designation)
    ∷ status_kv (codes "verification") (status_text r.verification)
    ∷ []

abbrev pub application_field : Option Bytes → List Field
application_field none = []
application_field (some app) = kv (codes "publickey_application") (text app) ∷ []

module _ (parse_uint : Bytes → Option ℕ) where
  abbrev pub security_key_fields : Option SecurityKeyInfo → List Field
  security_key_fields none = []
  security_key_fields (some sk) =
      kv (codes "securitykey_flags") (text (flags_text parse_uint sk))
      ∷ kv (codes "securitykey_counter") (number sk.counter)
      ∷ []

  unfoldable pub inspect_fields : SignatureInfo → List Field
  unfolding flags_text
  inspect_fields r =
      kv (codes "version") (number r.version)
      ∷ kv (codes "publickey_format") (text r.public_key.format)
      ∷ kv (codes "publickey_blob") (text r.public_key.blob)
      ∷ kv (codes "publickey_fingerprint") (text r.public_key.fingerprint)
      ∷ (application_field r.public_key.application
          ++ (kv (codes "namespace") (text r.namespace)
              ∷ kv (codes "hash_algorithm") (text r.hash_algorithm)
              ∷ kv (codes "signature_format") (text r.signature.format)
              ∷ kv (codes "signature_blob") (text r.signature.blob)
              ∷ security_key_fields r.signature.security_key))

module _ (quote : Bytes → Bytes) where
  -- Both forms of a result, the second with colours.
  unfoldable pub verify_text : Bool → VerifyResult → Bytes
  unfolding verify_fields format_kv
  verify_text color r = format_kv quote color (negsuc 14) (codes " ") (codes "= ") (verify_fields r)

  unfoldable pub check_text : Bool → CheckResult → Bytes
  unfolding check_fields format_kv
  check_text color r = format_kv quote color (negsuc 14) (codes " ") (codes "= ") (check_fields r)

  unfoldable pub inspect_text : (Bytes → Option ℕ) → SignatureInfo → Bytes
  unfolding inspect_fields format_kv
  inspect_text parse_uint r =
      format_kv quote false (negsuc 21) (codes " ") (codes "| ") (inspect_fields parse_uint r)

unfoldable pub sign_text : (ssh : Ssh) → Signature ssh.PublicKey → Bytes
unfolding armor trim_space
sign_text ssh sig = trim_space (armor ssh sig)

-- ===== src/Sshsig/Structure.antt =====
-- pkg/sshsig/protocol.go and signature.go: the checks of a signature that do not read the
-- message. A signature here has every field that Go's may lack, as those of `Sign` and
-- `ParseSignature` have.
pub mod Sound
use ssh_sign.Prelude.{
  ℕ, Bool, true, false, not, ◌&&◌, ◌||◌, List, [], ◌∷◌, ◌++◌, Option, none, some, ◌==◌,
  if◌then◌else◌, is_nil, is_none, length, any, Result, ok, err, map_err, guard, ◌>>=◌, ◌>>◌,
}
use ssh_sign.Text.Bytes.{Bytes, codes, bytes_eq, mem_byte}
use ssh_sign.Ssh.{Ssh, SshSignature, SecurityKeyFields}
use ssh_sign.Sshsig.Certificate.{public_key_type}

pub record Signature (K : Type 0) : Type 0 where
  pub version : ℕ
  pub public_key : K
  pub namespace : Bytes
  pub reserved : Bytes
  pub hash_algorithm : Bytes
  pub signature : SshSignature

abbrev pub sig_version : ℕ
sig_version = 1

-- The key algorithms that the checks name.
abbrev pub rsa : Bytes
rsa = codes "ssh-rsa"

abbrev pub rsa_sha256 : Bytes
rsa_sha256 = codes "rsa-sha2-256"

abbrev pub rsa_sha512 : Bytes
rsa_sha512 = codes "rsa-sha2-512"

abbrev pub dsa : Bytes
dsa = codes "ssh-dss"

abbrev pub sk_ed25519 : Bytes
sk_ed25519 = codes "sk-ssh-ed25519@openssh.com"

abbrev pub sk_ecdsa256 : Bytes
sk_ecdsa256 = codes "sk-ecdsa-sha2-nistp256@openssh.com"

abbrev pub hash_sha256 : Bytes
hash_sha256 = codes "sha256"

abbrev pub hash_sha512 : Bytes
hash_sha512 = codes "sha512"

pub data SigError : Type 0 where
  unsupported_version : ℕ → SigError
  bad_security_key_fields : Bytes → SigError
  trailing_data : ℕ → SigError
  reserved_not_empty empty_namespace : SigError
  nul_in_namespace : Bytes → SigError
  unsupported_hash : Bytes → SigError
  bad_format : Bytes → List Bytes → SigError
  unsupported_algorithm : SigError
  bad_rsa_format : Bytes → SigError
  invalid_signature : Bytes → SigError
  bad_preamble : Bytes → SigError
  invalid_public_key : Bytes → SigError
  invalid_signature_field : Bytes → SigError
  read_error : Bytes → SigError
  verify_failed : Bytes → SigError
  signer_required namespace_required no_sha2_signer : SigError
  signer_failed : Bytes → SigError

abbrev pub Check : Type 0
Check = Result SigError (Unit {0})

unfoldable pub validate_namespace : Bytes → Check
validate_namespace ns = if mem_byte 0 ns then err (nul_in_namespace ns) else ok tt

unfoldable pub is_security_key : Bytes → Bool
unfolding bytes_eq
is_security_key t = bytes_eq t sk_ed25519 || bytes_eq t sk_ecdsa256

-- The formats that `validateSignatureFormat` accepts for a key type.
abbrev pub expected_formats : Bytes → List Bytes
expected_formats t = if bytes_eq t rsa then t ∷ rsa_sha256 ∷ rsa_sha512 ∷ [] else t ∷ []

module _ (ssh : Ssh) where
  open ssh use {PublicKey, unmarshal_fields, sha256, sha512}

  -- `HashAlgorithm.hash`
  unfoldable pub hash : Bytes → Result SigError (Bytes → Bytes)
  unfolding bytes_eq
  hash h =
      if bytes_eq h hash_sha256
      then ok sha256
      else if bytes_eq h hash_sha512
      then ok sha512
      else err (unsupported_hash h)

  -- `SecurityKeyFields`: `none` for a key of another type.
  unfoldable pub security_key_fields :
      Signature PublicKey → Result SigError (Option SecurityKeyFields)
  security_key_fields sig =
      if not (is_security_key (public_key_type ssh sig.public_key))
      then ok none
      else map_err bad_security_key_fields (do f ← unmarshal_fields sig.signature.rest; ok (some f))

  unfoldable pub validate_signature_format : PublicKey → Bytes → Check
  validate_signature_format pk format =
      let expected = expected_formats (public_key_type ssh pk) in
      if any (bytes_eq format) expected then ok tt else err (bad_format format expected)

  -- The `switch` over the security key's fields.
  unfoldable pub validate_rest : Signature PublicKey → Check
  validate_rest sig = do
    fields ← security_key_fields sig
    guard (not (is_none fields && not (is_nil sig.signature.rest)))
        (trailing_data (length sig.signature.rest))

  unfoldable pub validate_structure : Signature PublicKey → Check
  unfolding validate_rest
  validate_structure sig = do
    guard (sig.version == sig_version) (unsupported_version sig.version)
    validate_rest sig
    guard (is_nil sig.reserved) reserved_not_empty
    guard (not (is_nil sig.namespace)) empty_namespace
    validate_namespace sig.namespace
    _ ← hash sig.hash_algorithm
    validate_signature_format sig.public_key sig.signature.format

  unfoldable pub validate_signature_algorithm : Signature PublicKey → Check
  validate_signature_algorithm sig =
      let t = public_key_type ssh sig.public_key in
      let format = sig.signature.format in
      if bytes_eq t dsa || bytes_eq format dsa
      then err unsupported_algorithm
      else if bytes_eq t rsa && not (bytes_eq format rsa_sha256) && not (bytes_eq format rsa_sha512)
      then err (bad_rsa_format format)
      else ok tt

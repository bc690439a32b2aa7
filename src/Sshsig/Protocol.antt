-- ===== src/Sshsig/Protocol.antt =====
-- pkg/sshsig/protocol.go and signature.go: signing, verifying and parsing signatures.
pub mod Undecided
pub mod Laws
pub mod Signing
use ssh_sign.Prelude.{
  ℕ, Bool, true, false, not, ◌&&◌, ◌||◌, List, [], ◌∷◌, ◌++◌, Option, none, some, ◌==◌,
  if◌then◌else◌, is_nil, Result, ok, err, map_err, guard, ◌>>=◌, ◌>>◌,
}
use ssh_sign.Text.Bytes.{Bytes, codes, bytes_eq, has_prefix, trim_prefix}
use ssh_sign.Text.Scan.{Reader}
use ssh_sign.Ssh.{Ssh, SshSignature, SignatureWire}
use ssh_sign.Sshsig.Certificate.{as_certificate}
use ssh_sign.Sshsig.Structure.{
  Signature, sig_version, rsa, rsa_sha512, hash_sha512, SigError, invalid_signature, bad_preamble,
  invalid_public_key, invalid_signature_field, read_error, verify_failed, signer_required,
  namespace_required, no_sha2_signer, signer_failed, Check, validate_namespace, hash,
  validate_structure, validate_signature_algorithm,
}

abbrev pub magic_preamble : Bytes
magic_preamble = codes "SSHSIG"

-- `ssh.Signer`; `with_algorithm` is there if the signer is an `ssh.AlgorithmSigner`.
pub record Signer (K : Type 0) : Type 0 where
  pub public_key : K
  pub sign_with : Bytes → Result Bytes SshSignature
  pub with_algorithm : Option (Bytes → Bytes → Result Bytes SshSignature)

module _ (ssh : Ssh) where
  open ssh use {
    PublicKey, key_type, marshal_key, parse_public_key, marshal_signature, unmarshal_signature,
    marshal_wire, unmarshal_wire, marshal_signed_data,
  }

  unfoldable pub hash_message : Reader → Bytes → Result SigError Bytes
  hash_message r h = do
    f ← hash ssh h
    elim (r.failure) [ none ↦ ok (f r.content) | some e ↦ err (read_error e) ]

  unfoldable pub signed_data : Bytes → Bytes → Bytes → Bytes
  signed_data namespace h digest =
      magic_preamble
      ++ marshal_signed_data
          (record { namespace = namespace; reserved = []; hash_algorithm = h; hash = digest })

  rsa_sign :
      Option (Bytes → Bytes → Result Bytes SshSignature) → Bytes → Result SigError SshSignature
  rsa_sign none blob = err no_sha2_signer
  rsa_sign (some f) blob = map_err signer_failed (f blob rsa_sha512)

  unfoldable pub sign_blob : Signer PublicKey → Bytes → Result SigError SshSignature
  unfolding rsa_sign
  sign_blob signer blob =
      if bytes_eq (key_type signer.public_key) rsa
      then rsa_sign signer.with_algorithm blob
      else map_err signer_failed (signer.sign_with blob)

  -- `Sign`, with a signer that is there
  unfoldable pub sign :
      Reader → Signer PublicKey → Bytes → Bytes → Result SigError (Signature PublicKey)
  unfolding hash_message
  sign r signer h namespace = do
    guard (not (is_nil namespace)) namespace_required
    validate_namespace namespace
    digest ← hash_message r h
    sig ← sign_blob signer (signed_data namespace h digest)
    ok (record {
      version = sig_version;
      public_key = signer.public_key;
      namespace = namespace;
      reserved = [];
      hash_algorithm = h;
      signature = sig;
    })

  -- A certificate over an RSA key hides the key's type; `isRSACertificate`
  unfoldable pub is_rsa_certificate : PublicKey → Bool
  is_rsa_certificate pk = elim (as_certificate ssh pk) [
    | err e ↦ false
    | ok found ↦ elim found [ none ↦ false | some cert ↦ bytes_eq (key_type cert.key) rsa ]
  ]

  -- `rsaSHA512Signer` around a signer, which selects the algorithm whenever it signs and leaves no
  -- choice of it
  pub sha512_signer :
      Signer PublicKey
      → Option (Bytes → Bytes → Result Bytes SshSignature)
      → Result SigError (Signer PublicKey)
  sha512_signer signer none = err no_sha2_signer
  sha512_signer signer (some f) =
      ok (record signer { sign_with = λ blob. f blob rsa_sha512; with_algorithm = none })

  -- The signer of such a certificate is wrapped.
  unfoldable pub select_signer : Signer PublicKey → Result SigError (Signer PublicKey)
  unfolding sha512_signer
  select_signer signer =
      if is_rsa_certificate signer.public_key
      then sha512_signer signer signer.with_algorithm
      else ok signer

  unfoldable pub signature_create :
      Option (Signer PublicKey) → Bytes → Reader → Result SigError (Signature PublicKey)
  unfolding sign
  signature_create none ns r = err signer_required
  signature_create (some given) ns r = do
    signer ← select_signer given
    sig ← sign r signer hash_sha512 ns
    validate_signature_algorithm ssh sig
    ok sig

  unfoldable pub verify : Reader → Signature PublicKey → Check
  unfolding hash_message
  verify r sig = do
    validate_structure ssh sig
    validate_signature_algorithm ssh sig
    digest ← hash_message r sig.hash_algorithm
    map_err verify_failed (
        ssh.verify sig.public_key (signed_data sig.namespace sig.hash_algorithm digest)
          sig.signature)

  unfoldable pub parse_signature : Bytes → Result SigError (Signature PublicKey)
  parse_signature blob = do
    wire ← map_err invalid_signature (unmarshal_wire blob)
    guard (bytes_eq wire.magic_preamble magic_preamble) (bad_preamble wire.magic_preamble)
    pk ← map_err invalid_public_key (parse_public_key wire.public_key)
    s ← map_err invalid_signature_field (unmarshal_signature wire.signature)
    let sig : Signature PublicKey = record {
      version = wire.version;
      public_key = pk;
      namespace = wire.namespace;
      reserved = wire.reserved;
      hash_algorithm = wire.hash_algorithm;
      signature = s;
    }
    validate_structure ssh sig
    ok sig

  -- The layout that `Marshal` hands to `ssh.Marshal`
  unfoldable pub signature_wire : Signature PublicKey → SignatureWire
  signature_wire sig = record {
    magic_preamble = magic_preamble;
    version = sig.version;
    public_key = marshal_key sig.public_key;
    namespace = sig.namespace;
    reserved = sig.reserved;
    hash_algorithm = sig.hash_algorithm;
    signature = marshal_signature sig.signature;
  }

  unfoldable pub marshal : Signature PublicKey → Bytes
  unfolding signature_wire
  marshal sig = marshal_wire (signature_wire sig)

-- `IsReadError`
abbrev pub is_read_error : SigError → Bool
is_read_error (read_error e) = true
is_read_error _ = false

-- ===== src/Sshsig/Info.antt =====
-- pkg/sshsig/signature.go and publickey.go: what `inspect` reports of a signature. Of golang.org's
-- package ssh, `fingerprint` stands for `ssh.FingerprintSHA256`, and `application` for
-- `ssh.Unmarshal` of a security key's wire form, by the key's type.
use Prim.Native.Nat.{bit_and}
use ssh_sign.Prelude.{
  ℕ, ◌/◌, ◌%◌, Bool, not, ◌||◌, List, [], ◌∷◌, ◌++◌, Option, none, some, ◌==◌, if◌then◌else◌, ok,
  err,
}
use ssh_sign.Text.Numbers.{hex_digit}
use ssh_sign.Text.Bytes.{Bytes, codes, bytes_eq}
use ssh_sign.Text.Base64.{encode}
use ssh_sign.Ssh.{Ssh, SshSignature, SecurityKeyFields}
use ssh_sign.Sshsig.Certificate.{as_certificate}
use ssh_sign.Sshsig.Structure.{Signature, sk_ed25519, sk_ecdsa256, security_key_fields}

-- The flags of FIDO authenticator data
abbrev pub user_presence_bit : ℕ
user_presence_bit = 0x01

abbrev pub user_verification_bit : ℕ
user_verification_bit = 0x04

abbrev pub backup_eligible_bit : ℕ
backup_eligible_bit = 0x08

abbrev pub backed_up_bit : ℕ
backed_up_bit = 0x10

pub record SecurityKeyInfo : Type 0 where
  pub flags : Bytes
  pub user_presence : Bool
  pub user_verification : Bool
  pub backup_eligible : Bool
  pub backed_up : Bool
  pub counter : ℕ

abbrev pub has_bit : ℕ → ℕ → Bool
has_bit flags bit = not (bit_and flags bit == 0)

-- `0x%02x` of a byte
abbrev pub flags_hex : ℕ → Bytes
flags_hex b = b'0' ∷ b'x' ∷ hex_digit (b / 16) ∷ hex_digit (b % 16) ∷ []

unfoldable pub new_security_key_info : SecurityKeyFields → SecurityKeyInfo
new_security_key_info fields = record {
  flags = flags_hex fields.flags;
  user_presence = has_bit fields.flags user_presence_bit;
  user_verification = has_bit fields.flags user_verification_bit;
  backup_eligible = has_bit fields.flags backup_eligible_bit;
  backed_up = has_bit fields.flags backed_up_bit;
  counter = fields.counter;
}

abbrev pub word_if : Bool → Bytes → List Bytes
word_if b word = if b then word ∷ [] else []

-- The bits that no name stands for: `flags &^ known`
abbrev pub other_bits : ℕ → Bool
other_bits flags = not (bit_and flags 0xe2 == 0)

unfoldable pub named_bits : ℕ → List Bytes
named_bits flags =
    word_if (has_bit flags user_presence_bit) (codes "presence")
    ++ (word_if (has_bit flags user_verification_bit) (codes "user-verified")
        ++ (word_if (has_bit flags backup_eligible_bit) (codes "backup-eligible")
            ++ (word_if (has_bit flags backed_up_bit) (codes "backed-up")
                ++ word_if (other_bits flags) (codes "other-bits"))))

abbrev pub names_or_none : List Bytes → List Bytes
names_or_none [] = codes "none" ∷ []
names_or_none (name ∷ names) = name ∷ names

-- `strings.Join` with a comma
abbrev pub join_names : List Bytes → Bytes
join_names [] = []
join_names (name ∷ []) = name
join_names (name ∷ other ∷ names) = name ++ (b',' ∷ join_names (other ∷ names))

-- `FlagsText`; `parse_uint` stands for `strconv.ParseUint` to the base 0 with 8 bits.
unfoldable pub flags_text : (Bytes → Option ℕ) → SecurityKeyInfo → Bytes
unfolding named_bits
flags_text parse_uint info = elim (parse_uint info.flags) [
  | none ↦ info.flags
  | some flags ↦
      info.flags ++ (codes " (" ++ (join_names (names_or_none (named_bits flags)) ++ codes ")"))
]

pub record SignatureDataInfo : Type 0 where
  pub format : Bytes
  pub blob : Bytes
  pub security_key : Option SecurityKeyInfo

pub record PublicKeyInfo : Type 0 where
  pub format : Bytes
  pub blob : Bytes
  pub fingerprint : Bytes
  pub application : Option Bytes

pub record SignatureInfo : Type 0 where
  pub version : ℕ
  pub public_key : PublicKeyInfo
  pub namespace : Bytes
  pub hash_algorithm : Bytes
  pub signature : SignatureDataInfo

module _ (ssh : Ssh) (fingerprint : ssh.PublicKey → Bytes)
    (application : Bytes → Bytes → Option Bytes) where
  open ssh use {PublicKey, key_type, marshal_key}

  -- The key inside a certificate.
  abbrev pub signing_key : PublicKey → PublicKey
  signing_key pk = elim (as_certificate ssh pk) [
    | err e ↦ pk
    | ok found ↦ elim found [ none ↦ pk | some cert ↦ cert.key ]
  ]

  unfoldable pub security_key_application : PublicKey → Option Bytes
  unfolding as_certificate
  security_key_application pk =
      let key = signing_key pk in
      if bytes_eq (key_type key) sk_ed25519 || bytes_eq (key_type key) sk_ecdsa256
      then application (key_type key) (marshal_key key)
      else none

  unfoldable pub new_public_key_info : PublicKey → PublicKeyInfo
  unfolding security_key_application encode
  new_public_key_info pk = record {
    format = key_type pk;
    blob = encode (marshal_key pk);
    fingerprint = fingerprint pk;
    application = security_key_application pk;
  }

  abbrev pub reported_key : Signature PublicKey → Option SecurityKeyInfo
  reported_key sig = elim (security_key_fields ssh sig) [
    | err e ↦ none
    | ok found ↦ elim found [ none ↦ none | some fields ↦ some (new_security_key_info fields) ]
  ]

  unfoldable pub new_signature_data_info : Option SecurityKeyInfo → SshSignature → SignatureDataInfo
  unfolding encode
  new_signature_data_info key sig = record {
    format = sig.format;
    blob = encode sig.blob;
    security_key = key;
  }

  unfoldable pub new_signature_info : Signature PublicKey → SignatureInfo
  unfolding new_public_key_info new_signature_data_info security_key_fields new_security_key_info
  new_signature_info sig = record {
    version = sig.version;
    public_key = new_public_key_info sig.public_key;
    namespace = sig.namespace;
    hash_algorithm = sig.hash_algorithm;
    signature = new_signature_data_info (reported_key sig) sig.signature;
  }

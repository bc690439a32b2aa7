-- ===== src/Ssh.antt =====
-- golang.org/x/crypto/ssh and the hash functions, which the program calls and does not define:
-- a parameter of the model.
use ssh_sign.Prelude.{ℕ, Option, Result}
use ssh_sign.Text.Bytes.{Bytes}

-- `ssh.Certificate`, as far as it is read; the times and the type are unsigned words.
pub record Certificate (K : Type 0) : Type 0 where
  pub key : K
  pub cert_type : ℕ
  pub valid_after : ℕ
  pub valid_before : ℕ

-- `ssh.Signature`
pub record SshSignature : Type 0 where
  pub format : Bytes
  pub blob : Bytes
  pub rest : Bytes

-- The layouts that `ssh.Marshal` and `ssh.Unmarshal` are given (pkg/sshsig/protocol.go).
pub record SignatureWire : Type 0 where
  pub magic_preamble : Bytes
  pub version : ℕ
  pub public_key : Bytes
  pub namespace : Bytes
  pub reserved : Bytes
  pub hash_algorithm : Bytes
  pub signature : Bytes

pub record SignedDataWire : Type 0 where
  pub namespace : Bytes
  pub reserved : Bytes
  pub hash_algorithm : Bytes
  pub hash : Bytes

pub record SecurityKeyFields : Type 0 where
  pub flags : ℕ
  pub counter : ℕ

-- An error of the package is its message.
pub record Ssh : Type 1 where
  pub PublicKey : Type 0
  -- `pk.Type()`, `pk.Marshal()` and the assertion `pk.(*ssh.Certificate)`
  pub key_type : PublicKey → Bytes
  pub marshal_key : PublicKey → Bytes
  pub certificate : PublicKey → Option (Certificate PublicKey)
  -- `ssh.ParsePublicKey`
  pub parse_public_key : Bytes → Result Bytes PublicKey
  -- `pk.Verify(data, sig)`
  pub verify : PublicKey → Bytes → SshSignature → Result Bytes (Unit {0})
  pub marshal_signature : SshSignature → Bytes
  pub unmarshal_signature : Bytes → Result Bytes SshSignature
  pub marshal_wire : SignatureWire → Bytes
  pub unmarshal_wire : Bytes → Result Bytes SignatureWire
  pub marshal_signed_data : SignedDataWire → Bytes
  pub unmarshal_fields : Bytes → Result Bytes SecurityKeyFields
  -- crypto/sha256 and crypto/sha512
  pub sha256 : Bytes → Bytes
  pub sha512 : Bytes → Bytes

-- ===== src/Tests/Data.antt =====
-- The stand-ins for golang.org/x/crypto/ssh, the machine and `pem.Decode`, and the test data. A
-- key is its own bytes, a signature's blob is the key and the signed data, and texts are
-- written with a length before each.
use ssh_sign.Prelude.{
  ℕ, ◌-◌, true, [], ◌∷◌, ◌++◌, Option, none, some, length, take, drop, Result, ok, err,
  if◌then◌else◌, pos,
}
use ssh_sign.Text.Bytes.{Bytes, codes, bytes_eq}
use ssh_sign.Text.Scan.{Reader}
use ssh_sign.Ssh.{Ssh, Certificate, SshSignature, SignatureWire}
use ssh_sign.Sshsig.Structure.{Signature, hash_sha512}
use ssh_sign.Sshsig.Protocol.{Signer, magic_preamble}
use ssh_sign.Text.Base64.{decode}
use ssh_sign.Sshsig.Armor.{begin_line, end_line, armor}
use ssh_sign.Sshsig.Armored.{Pem, pem_type}
use ssh_sign.Signers.Line.{Machine}
use ssh_sign.Signers.Timestamp.{Time}
use ssh_sign.Signers.Options.{Options, no_options}
use ssh_sign.Signers.Line.{Entry}
use ssh_sign.Signers.File.{File, empty_file}

abbrev pub ed25519 : Bytes
ed25519 = codes "ssh-ed25519"

abbrev pub key : Bytes
key = 1 ∷ 2 ∷ 3 ∷ []

abbrev pub other_key : Bytes
other_key = 4 ∷ 5 ∷ 6 ∷ []

-- The certificate's key is longer than the others, which are three bytes long.
abbrev pub certificate_key : Bytes
certificate_key = 7 ∷ 8 ∷ 9 ∷ 0 ∷ []

abbrev toy_certificate : Bytes → Option (Certificate Bytes)
toy_certificate (a ∷ b ∷ c ∷ d ∷ []) =
    some (record { key = key; cert_type = 1; valid_after = 10; valid_before = 20 })
toy_certificate _ = none

-- A text behind its length.
abbrev sized : Bytes → Bytes
sized s = length s ∷ s

-- The text in front, and what is behind it.
abbrev unsized : Bytes → Bytes × Bytes
unsized [] = ([], [])
unsized (n ∷ s) = (take n s, drop n s)

abbrev toy_marshal_wire : SignatureWire → Bytes
toy_marshal_wire w = sized w.public_key ++ (sized w.namespace ++ w.signature)

abbrev toy_unmarshal_wire : Bytes → Result Bytes SignatureWire
toy_unmarshal_wire s =
    let (public_key, s1) = unsized s in
    let (namespace, s2) = unsized s1 in
    ok (record {
      magic_preamble = magic_preamble;
      version = 1;
      public_key = public_key;
      namespace = namespace;
      reserved = [];
      hash_algorithm = hash_sha512;
      signature = s2;
    })

abbrev pub toy_signature : Bytes → SshSignature
toy_signature blob = record { format = ed25519; blob = blob; rest = [] }

abbrev toy_verify : Bytes → Bytes → SshSignature → Result Bytes (Unit {0})
toy_verify k message s =
    if bytes_eq s.blob (k ++ message) then ok tt else err (codes "bad signature")

abbrev toy_key : Bytes → Result Bytes Bytes
toy_key [] = err (codes "short read")
toy_key (c ∷ k) = ok (c ∷ k)

abbrev pub toy : Ssh
toy = record {
  PublicKey = Bytes;
  key_type = λ k. ed25519;
  marshal_key = λ k. k;
  certificate = toy_certificate;
  parse_public_key = toy_key;
  verify = toy_verify;
  marshal_signature = λ s. s.blob;
  unmarshal_signature = λ s. ok (toy_signature s);
  marshal_wire = toy_marshal_wire;
  unmarshal_wire = toy_unmarshal_wire;
  marshal_signed_data = λ d. d.namespace ++ d.hash;
  unmarshal_fields = λ s. err (codes "short read");
  sha256 = λ s. s;
  sha512 = λ s. s;
}

abbrev pub machine : Machine
machine = record { is_graphic = λ r. true; local = λ c. pos 0 }

-- Between the first line and the last stands the block's text.
abbrev pub frame_body : Bytes → Bytes
frame_body s = drop (length begin_line) (take (length s - length end_line) s)

abbrev pub pem : Pem
pem s = elim (decode (frame_body s)) [
  | none ↦ none
  | some b ↦ some (record { kind = pem_type; headers = 0; bytes = b }, [])
]

abbrev pub reader : Bytes → Reader
reader s = record { content = s; failure = none }

abbrev pub git : Bytes
git = codes "git"

abbrev pub message : Bytes
message = codes "hi"

-- What a signature of `message` signs.
abbrev pub signed_text : Bytes
signed_text = magic_preamble ++ (git ++ message)

abbrev pub signature : Signature Bytes
signature = record {
  version = 1;
  public_key = key;
  namespace = git;
  reserved = [];
  hash_algorithm = hash_sha512;
  signature = toy_signature (key ++ signed_text);
}

abbrev pub armored : Bytes
armored = armor toy signature

abbrev pub signer : Signer Bytes
signer = record {
  public_key = key;
  sign_with = λ blob. ok (toy_signature (key ++ blob));
  with_algorithm = none;
}

-- A line of an allowed signers file; "AQID" encodes `key`.
abbrev pub alice_line : Bytes
alice_line = codes "alice namespaces=\"git\" ssh-ed25519 AQID"

abbrev pub signers_text : Bytes
signers_text = alice_line ++ b'\n' ∷ []

abbrev pub at : ℕ → Time
at n = record { unix = pos n; nsec = 0 }

abbrev pub git_options : Options
git_options = record { namespaces = git ∷ []; valid_after = none; valid_before = none }

abbrev pub alice : Entry Bytes
alice = record {
  source = [];
  line = 1;
  principal = codes "alice";
  options = git_options;
  key_type = ed25519;
  key_base64 = codes "AQID";
  comment = [];
  public_key = key;
}

abbrev pub bob : Entry Bytes
bob = record alice { line = 2; principal = codes "bob"; options = no_options }

abbrev pub signers : File Bytes
signers = record (empty_file Bytes) { entries = alice ∷ bob ∷ [] }

-- ===== src/Sshsig/Protocol/Laws.antt =====
-- What verification accepts, and that what is signed or rendered is read back.
use ssh_sign.Prelude.{Option, none, some, ◌≡◌, refl, ◌↔◌, ok, err, Result, >>=-eq-ok, map_err-eq-ok}
use ssh_sign.Text.Bytes.{Bytes, bytes_eq_refl}
use ssh_sign.Text.Scan.{Reader}
use ssh_sign.Ssh.{Ssh}
use ssh_sign.Sshsig.Structure.{
  Signature, SigError, hash, validate_structure, validate_signature_algorithm, verify_failed,
  read_error,
}
use ssh_sign.Sshsig.Structure.Sound.{
  IsSound, IsModern, validate_structure_iff, validate_signature_algorithm_iff,
}
use ssh_sign.Sshsig.Protocol.{
  hash_message, signed_data, verify, parse_signature, signature_wire, marshal, magic_preamble,
}

module _ (ssh : Ssh) where
  open ssh use {
    PublicKey, marshal_key, parse_public_key, marshal_signature, unmarshal_signature, marshal_wire,
    unmarshal_wire,
  }

  -- The message was read to its end, and the key that the signature carries verifies the blob
  -- built from the namespace, the hash's name and the message's digest.
  pub record IsVerified (r : Reader) (sig : Signature PublicKey) : Type 0 where
    pub sound : IsSound ssh sig
    pub modern : IsModern ssh sig
    pub complete : r.failure ≡ none
    pub verified :
        (f : Bytes → Bytes) × (hash ssh sig.hash_algorithm ≡ ok f)
        × (ssh.verify sig.public_key
              (signed_data ssh sig.namespace sig.hash_algorithm (f r.content))
              sig.signature
            ≡ ok tt)

  pub hash_message-ok :
      (r : Reader) (h : Bytes) (d : Bytes)
      → hash_message ssh r h ≡ ok d
      → (r.failure ≡ none) × (f : Bytes → Bytes) × (hash ssh h ≡ ok f) × (d ≡ f r.content)
  unfolding hash_message
  hash_message-ok r h d e =
      let (f, k, e1) = >>=-eq-ok (hash ssh h) _ e in
      let (n, same) = read f r.failure e1 in (n, f, k, same)
    where
      read :
          (f : Bytes → Bytes) (o : Option Bytes)
          → (elim o as (λ x. Result SigError Bytes) [
            | none ↦ ok (f r.content)
            | some x ↦ err (read_error x)
          ])
            ≡ ok d
          → (o ≡ none) × (d ≡ f r.content)
      read f none e = (refl, cc)
      read f (some x) e = cc

  verify-IsVerified :
      (r : Reader) (sig : Signature PublicKey) → verify ssh r sig ≡ ok tt → IsVerified r sig
  unfolding verify
  verify-IsVerified r sig h =
      let (_, s, h1) = >>=-eq-ok (validate_structure ssh sig) _ h in
      let (_, a, h2) = >>=-eq-ok (validate_signature_algorithm ssh sig) _ h1 in
      let (d, m, h3) = >>=-eq-ok (hash_message ssh r sig.hash_algorithm) _ h2 in
      let (n, f, k, same) = hash_message-ok r sig.hash_algorithm d m in
      record {
        sound = (validate_structure_iff ssh sig).0 s;
        modern = (validate_signature_algorithm_iff ssh sig).0 a;
        complete = n;
        verified = (f, k, rw same at (map_err-eq-ok verify_failed _ h3));
      }

  IsVerified-verify :
      (r : Reader) (sig : Signature PublicKey) → IsVerified r sig → verify ssh r sig ≡ ok tt
  unfolding verify hash_message
  IsVerified-verify r sig w =
      let (f, k, v) = w.verified in
      let s = (validate_structure_iff ssh sig).1 w.sound in
      let a = (validate_signature_algorithm_iff ssh sig).1 w.modern in
      let n = w.complete in rw (s, a, k, n, v)

  -- `Verify` accepts a message exactly if the signature is sound and no legacy one, the message
  -- was read to its end, and the signature's key verifies the blob of its digest.
  pub verify_iff :
      (r : Reader) (sig : Signature PublicKey) → (verify ssh r sig ≡ ok tt) ↔ IsVerified r sig
  verify_iff r sig = (verify-IsVerified r sig, IsVerified-verify r sig)

  -- What was marshalled is unmarshalled again: the wire layout, the key and the signature.
  pub record IsReadable (sig : Signature PublicKey) : Type 0 where
    pub wire : unmarshal_wire (marshal_wire (signature_wire ssh sig)) ≡ ok (signature_wire ssh sig)
    pub key : parse_public_key (marshal_key sig.public_key) ≡ ok sig.public_key
    pub field : unmarshal_signature (marshal_signature sig.signature) ≡ ok sig.signature

  -- A sound signature whose parts are read back is parsed back from its rendering, in every field.
  pub parse_signature-marshal :
      (sig : Signature PublicKey)
      → IsReadable sig
      → IsSound ssh sig
      → parse_signature ssh (marshal ssh sig) ≡ ok sig
  unfolding parse_signature marshal signature_wire
  parse_signature-marshal sig h w =
      let s = (validate_structure_iff ssh sig).1 w in
      rw (h.wire, bytes_eq_refl magic_preamble, h.key, h.field, s)

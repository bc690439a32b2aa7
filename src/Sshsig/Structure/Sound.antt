-- ===== src/Sshsig/Structure/Sound.antt =====
-- What the checks of a signature accept.
use ssh_sign.Prelude.{
  true, false, not, List, [], ◌∷◌, ◌≡◌, ◌≢◌, refl, ◌⊎◌, inl, inr, ◌↔◌, arith, ◌==◌, ==_iff,
  Bool-cases, is_nil, any, ok, err, Result, >>=-eq-ok, guard-eq-ok,
}
use ssh_sign.Text.Bytes.{Bytes, bytes_eq, bytes_eq_iff, mem_byte}
use ssh_sign.Ssh.{Ssh, SecurityKeyFields}
use ssh_sign.Sshsig.Certificate.{public_key_type}
use ssh_sign.Sshsig.Structure.{
  Signature, sig_version, rsa, rsa_sha256, rsa_sha512, dsa, hash_sha256, hash_sha512,
  is_security_key, expected_formats, hash, security_key_fields, validate_namespace,
  validate_signature_format, validate_rest, validate_structure, validate_signature_algorithm,
}

-- The format is one of the listed ones.
abbrev pub OneOf : Bytes → List Bytes → Type 0
OneOf f [] = ⊥
OneOf f (g ∷ gs) = (f ≡ g) ⊎ OneOf f gs

OneOf-step :
    (f g : Bytes) (gs : List Bytes)
    → (any (bytes_eq f) gs ≡ true) ↔ OneOf f gs
    → (any (bytes_eq f) (g ∷ gs) ≡ true) ↔ OneOf f (g ∷ gs)
OneOf-step f g gs ih = elim (Bool-cases (bytes_eq f g)) [
  | inl same ↦ (λ h. inl ((bytes_eq_iff f g).0 same), λ w. rw same)
  | inr other ↦ (λ h. inr (ih.0 (rw other at h)), λ w. rw other (rest other w))
]
  where
    rest : bytes_eq f g ≡ false → OneOf f (g ∷ gs) → any (bytes_eq f) gs ≡ true
    rest other (inl e) = ground (arith, bytes_eq_iff f g)
    rest other (inr w) = ih.1 w

OneOf-any : (f : Bytes) (gs : List Bytes) → (any (bytes_eq f) gs ≡ true) ↔ OneOf f gs
OneOf-any f [] = (λ h. cc, λ w. absurd w)
OneOf-any f (g ∷ gs) = OneOf-step f g gs (OneOf-any f gs)

module _ (ssh : Ssh) where
  open ssh use {PublicKey, unmarshal_fields}

  abbrev key_type_of : Signature PublicKey → Bytes
  key_type_of sig = public_key_type ssh sig.public_key

  -- Only a security key has anything behind its signature, and there it is flags and a counter.
  abbrev pub RestFits : Signature PublicKey → Type 0
  RestFits sig =
      ((is_security_key (key_type_of sig) ≡ true)
        × (f : SecurityKeyFields) × (unmarshal_fields sig.signature.rest ≡ ok f))
      ⊎ ((is_security_key (key_type_of sig) ≡ false) × (sig.signature.rest ≡ []))

  pub record IsSound (sig : Signature PublicKey) : Type 0 where
    pub version_is : sig.version ≡ sig_version
    pub rest_fits : RestFits sig
    pub no_reserved : sig.reserved ≡ []
    pub has_namespace : sig.namespace ≢ []
    pub no_nul : mem_byte 0 sig.namespace ≡ false
    pub hash_known : OneOf sig.hash_algorithm (hash_sha256 ∷ hash_sha512 ∷ [])
    pub format_fits : OneOf sig.signature.format (expected_formats (key_type_of sig))

  rest-fits : (sig : Signature PublicKey) → validate_rest ssh sig ≡ ok tt → RestFits sig
  unfolding validate_rest security_key_fields
  rest-fits sig h = elim (Bool-cases (is_security_key (key_type_of sig))) [
    | inl sk ↦ let (f, e) = parsed sk (unmarshal_fields sig.signature.rest) refl in inl (sk, f, e)
    | inr plain ↦ inr (plain, empty plain sig.signature.rest refl)
  ]
    where
      parsed :
          is_security_key (key_type_of sig) ≡ true
          → (r : Result Bytes SecurityKeyFields) → unmarshal_fields sig.signature.rest ≡ r
          → (f : SecurityKeyFields) × (unmarshal_fields sig.signature.rest ≡ ok f)
      parsed sk (ok f) e = (f, e)
      parsed sk (err x) e = ground (arith, h)

      empty :
          is_security_key (key_type_of sig) ≡ false
          → (r : Bytes) → sig.signature.rest ≡ r
          → sig.signature.rest ≡ []
      empty plain [] e = e
      empty plain (c ∷ r) e = ground (arith, h)

  fits-rest : (sig : Signature PublicKey) → RestFits sig → validate_rest ssh sig ≡ ok tt
  unfolding validate_rest security_key_fields
  fits-rest sig (inl (sk, f, e)) = rw (sk, e)
  fits-rest sig (inr (plain, e)) = rw (plain, e)

  hash-OneOf :
      (h : Bytes) (f : Bytes → Bytes) → hash ssh h ≡ ok f → OneOf h (hash_sha256 ∷ hash_sha512 ∷ [])
  unfolding hash
  hash-OneOf h f e = (OneOf-any h (hash_sha256 ∷ hash_sha512 ∷ [])).0 (ground arith)

  pub known-hash :
      (h : Bytes)
      → OneOf h (hash_sha256 ∷ hash_sha512 ∷ [])
      → (f : Bytes → Bytes) × (hash ssh h ≡ ok f)
  unfolding hash
  known-hash h (inl e) = (ssh.sha256, rw e)
  known-hash h (inr (inl e)) = (ssh.sha512, rw e)
  known-hash h (inr (inr e)) = absurd e

  structure-IsSound : (sig : Signature PublicKey) → validate_structure ssh sig ≡ ok tt → IsSound sig
  unfolding validate_structure validate_namespace validate_signature_format
  structure-IsSound sig h =
      let (v, h1) = guard-eq-ok (sig.version == sig_version) _ _ h in
      let (_, r, h2) = >>=-eq-ok (validate_rest ssh sig) _ h1 in
      let (e, h3) = guard-eq-ok (is_nil sig.reserved) _ _ h2 in
      let (n, h4) = guard-eq-ok (not (is_nil sig.namespace)) _ _ h3 in
      let (_, z, h5) = >>=-eq-ok (validate_namespace sig.namespace) _ h4 in
      let (f, k, h6) = >>=-eq-ok (hash ssh sig.hash_algorithm) _ h5 in
      record {
        version_is = (==_iff _ _).0 v;
        rest_fits = rest-fits sig r;
        no_reserved = ground arith;
        has_namespace = ground arith;
        no_nul = ground arith;
        hash_known = hash-OneOf sig.hash_algorithm f k;
        format_fits = (OneOf-any _ _).0 (ground arith);
      }

  IsSound-structure : (sig : Signature PublicKey) → IsSound sig → validate_structure ssh sig ≡ ok tt
  unfolding validate_structure validate_namespace validate_signature_format
  IsSound-structure sig w =
      let (f, k) = known-hash sig.hash_algorithm w.hash_known in
      let fits = fits-rest sig w.rest_fits in
      let format = (OneOf-any _ _).1 w.format_fits in ground arith

  -- The structure checks pass exactly if the version is 1, the reserved field is empty, the
  -- namespace is not empty and has no NUL byte, the hash is one of the two, the format is one that
  -- the key's type produces, and the bytes behind the signature are those of a security key, or
  -- none for another key.
  pub validate_structure_iff :
      (sig : Signature PublicKey) → (validate_structure ssh sig ≡ ok tt) ↔ IsSound sig
  validate_structure_iff sig = (structure-IsSound sig, IsSound-structure sig)

  -- No DSA key or signature passes, and an RSA key's signature passes only in a SHA-2 format.
  pub record IsModern (sig : Signature PublicKey) : Type 0 where
    pub no_dsa_key : key_type_of sig ≢ dsa
    pub no_dsa_format : sig.signature.format ≢ dsa
    pub rsa_sha2 : key_type_of sig ≡ rsa → OneOf sig.signature.format (rsa_sha256 ∷ rsa_sha512 ∷ [])

  algorithm-IsModern :
      (sig : Signature PublicKey) → validate_signature_algorithm ssh sig ≡ ok tt → IsModern sig
  unfolding validate_signature_algorithm
  algorithm-IsModern sig h =
      let t = key_type_of sig in
      let f = sig.signature.format in
      record {
        no_dsa_key = ground (arith, bytes_eq_iff t dsa);
        no_dsa_format = ground (arith, bytes_eq_iff f dsa);
        rsa_sha2 = λ e.
            (OneOf-any f (rsa_sha256 ∷ rsa_sha512 ∷ [])).0 (ground (arith, bytes_eq_iff t rsa));
      }

  IsModern-algorithm :
      (sig : Signature PublicKey) → IsModern sig → validate_signature_algorithm ssh sig ≡ ok tt
  unfolding validate_signature_algorithm
  IsModern-algorithm sig w = elim (Bool-cases (bytes_eq (key_type_of sig) rsa)) [
    | inl e ↦
        let sha2 =
          (OneOf-any sig.signature.format (rsa_sha256 ∷ rsa_sha512 ∷ [])).1
            (w.rsa_sha2 ((bytes_eq_iff _ _).0 e)) in
        ground (arith, bytes_eq_iff (key_type_of sig) dsa, bytes_eq_iff sig.signature.format dsa)
    | inr e ↦
        ground (arith, bytes_eq_iff (key_type_of sig) dsa, bytes_eq_iff sig.signature.format dsa)
  ]

  -- The algorithm check passes exactly if neither the key nor the signature is DSA, and an RSA
  -- key's signature has one of the two SHA-2 formats.
  pub validate_signature_algorithm_iff :
      (sig : Signature PublicKey) → (validate_signature_algorithm ssh sig ≡ ok tt) ↔ IsModern sig
  validate_signature_algorithm_iff sig = (algorithm-IsModern sig, IsModern-algorithm sig)

-- ===== src/Sshsig/Protocol/Signing.antt =====
-- What `signature_create` returns, and that it verifies.
use ssh_sign.Prelude.{
  false, not, [], Option, none, some, ◌≡◌, ◌≢◌, refl, sym, ap, subst, ◌∙◌, arith, Bool-cases, inl,
  inr, is_nil, ok, Result, >>=-eq-ok, guard-eq-ok, map_err-eq-ok,
}
use ssh_sign.Text.Bytes.{Bytes, bytes_eq, mem_byte}
use ssh_sign.Text.Scan.{Reader}
use ssh_sign.Ssh.{Ssh, SshSignature}
use ssh_sign.Sshsig.Certificate.{public_key_type}
use ssh_sign.Sshsig.Structure.{
  Signature, sig_version, rsa, rsa_sha512, hash_sha512, hash, expected_formats, validate_namespace,
  validate_signature_algorithm, signer_failed,
}
use ssh_sign.Sshsig.Structure.Sound.{
  IsSound, IsModern, RestFits, OneOf, validate_signature_algorithm_iff,
}
use ssh_sign.Sshsig.Protocol.{
  Signer, hash_message, signed_data, rsa_sign, sign_blob, sign, is_rsa_certificate, sha512_signer,
  select_signer, signature_create, verify,
}
use ssh_sign.Sshsig.Protocol.Laws.{IsVerified, verify_iff, hash_message-ok}

module _ (ssh : Ssh) where
  open ssh use {PublicKey}

  -- What the signer signs is verified by its public key.
  pub record IsHonest (signer : Signer PublicKey) : Type 0 where
    pub plain :
        (blob : Bytes) (s : SshSignature)
        → signer.sign_with blob ≡ ok s
        → ssh.verify signer.public_key blob s ≡ ok tt
    pub chosen :
        (f : Bytes → Bytes → Result Bytes SshSignature)
        → signer.with_algorithm ≡ some f
        → (blob alg : Bytes) (s : SshSignature) → f blob alg ≡ ok s
        → ssh.verify signer.public_key blob s ≡ ok tt

  sha512_signer-IsHonest :
      (given signer : Signer PublicKey) (o : Option (Bytes → Bytes → Result Bytes SshSignature))
      → given.with_algorithm ≡ o
      → IsHonest given
      → sha512_signer ssh given o ≡ ok signer
      → IsHonest signer × (signer.public_key ≡ given.public_key)
  unfolding sha512_signer
  sha512_signer-IsHonest given signer none e w h = cc
  sha512_signer-IsHonest given signer (some f) e w h =
      let wrapped : Signer PublicKey = record given {
        sign_with = λ blob. f blob rsa_sha512;
        with_algorithm = none;
      } in
      let same : wrapped ≡ signer = cc h in
      subst (λ x. IsHonest x × (x.public_key ≡ given.public_key)) same
        (
          record {
            plain = λ blob s h'. w.chosen f e blob rsa_sha512 s h';
            chosen = λ g e' blob alg s h'. cc;
          },
          refl,
        )

  select_signer-IsHonest :
      (given signer : Signer PublicKey)
      → IsHonest given
      → select_signer ssh given ≡ ok signer
      → IsHonest signer × (signer.public_key ≡ given.public_key)
  unfolding select_signer
  select_signer-IsHonest given signer w h =
      elim (Bool-cases (is_rsa_certificate ssh given.public_key)) [
        | inl e ↦ sha512_signer-IsHonest given signer given.with_algorithm refl w (rw e at h)
        | inr e ↦ let same : given ≡ signer = cc (rw e at h) in rw (← same) (w, refl)
      ]

  rsa_sign-verify :
      (signer : Signer PublicKey) (blob : Bytes) (s : SshSignature)
      (o : Option (Bytes → Bytes → Result Bytes SshSignature))
      → signer.with_algorithm ≡ o
      → IsHonest signer
      → rsa_sign ssh o blob ≡ ok s
      → ssh.verify signer.public_key blob s ≡ ok tt
  unfolding rsa_sign
  rsa_sign-verify signer blob s none e w h = cc
  rsa_sign-verify signer blob s (some f) e w h =
      w.chosen f e blob rsa_sha512 s (map_err-eq-ok signer_failed _ h)

  sign_blob-verify :
      (signer : Signer PublicKey) (blob : Bytes) (s : SshSignature)
      → IsHonest signer
      → sign_blob ssh signer blob ≡ ok s
      → ssh.verify signer.public_key blob s ≡ ok tt
  unfolding sign_blob
  sign_blob-verify signer blob s w h =
      elim (Bool-cases (bytes_eq (ssh.key_type signer.public_key) rsa)) [
        | inl e ↦ rsa_sign-verify signer blob s signer.with_algorithm refl w (rw e at h)
        | inr e ↦ w.plain blob s (map_err-eq-ok signer_failed _ (rw e at h))
      ]

  -- What `Sign` puts into a signature.
  pub record IsSigned (key : PublicKey) (h ns : Bytes) (r : Reader) (sig : Signature PublicKey)
      : Type 0 where
    pub key_is : sig.public_key ≡ key
    pub version_is : sig.version ≡ sig_version
    pub namespace_is : sig.namespace ≡ ns
    pub hash_is : sig.hash_algorithm ≡ h
    pub no_reserved : sig.reserved ≡ []
    pub has_namespace : ns ≢ []
    pub no_nul : mem_byte 0 ns ≡ false

  sign-ok :
      (r : Reader) (signer : Signer PublicKey) (h ns : Bytes) (sig : Signature PublicKey)
      → sign ssh r signer h ns ≡ ok sig
      → IsSigned signer.public_key h ns r sig
        × (d : Bytes) × (hash_message ssh r h ≡ ok d)
        × (sign_blob ssh signer (signed_data ssh ns h d) ≡ ok sig.signature)
  unfolding sign validate_namespace
  sign-ok r signer h ns sig e =
      let (n, e1) = guard-eq-ok (not (is_nil ns)) _ _ e in
      let (_, z, e2) = >>=-eq-ok (validate_namespace ns) _ e1 in
      let (d, m, e3) = >>=-eq-ok (hash_message ssh r h) _ e2 in
      let (s, b, e4) = >>=-eq-ok (sign_blob ssh signer (signed_data ssh ns h d)) _ e3 in
      (
        record {
          key_is = cc;
          version_is = cc;
          namespace_is = cc;
          hash_is = cc;
          no_reserved = cc;
          has_namespace = ground arith;
          no_nul = ground arith;
        },
        d,
        m,
        b ∙ cc,
      )

  create-parts :
      (given : Signer PublicKey) (ns : Bytes) (r : Reader) (sig : Signature PublicKey)
      → signature_create ssh (some given) ns r ≡ ok sig
      → (signer : Signer PublicKey) × (select_signer ssh given ≡ ok signer)
        × (sign ssh r signer hash_sha512 ns ≡ ok sig)
        × IsModern ssh sig
  unfolding signature_create
  create-parts given ns r sig h =
      let (signer, c, h1) = >>=-eq-ok (select_signer ssh given) _ h in
      let (s, e, h2) = >>=-eq-ok (sign ssh r signer hash_sha512 ns) _ h1 in
      let (_, a, h3) = >>=-eq-ok (validate_signature_algorithm ssh s) _ h2 in
      let same : s ≡ sig = cc h3 in
      (signer, c, e ∙ ap ok same, (validate_signature_algorithm_iff ssh sig).0 (rw (← same) a))

  -- A signature that an honest signer creates verifies over the same message, where its format and
  -- the bytes behind it fit the key's type; and it carries the signer's key, the namespace and
  -- SHA-512.
  pub signature_create-verify :
      (given : Signer PublicKey) (ns : Bytes) (r : Reader) (sig : Signature PublicKey)
      → IsHonest given
      → signature_create ssh (some given) ns r ≡ ok sig
      → RestFits ssh sig
      → OneOf sig.signature.format (expected_formats (public_key_type ssh sig.public_key))
      → IsSigned given.public_key hash_sha512 ns r sig × (verify ssh r sig ≡ ok tt)
  signature_create-verify given ns r sig w h fits format =
      let (signer, c, e, modern) = create-parts given ns r sig h in
      let (honest, same) = select_signer-IsHonest given signer w c in
      let (parts, d, m, b) = sign-ok r signer hash_sha512 ns sig e in
      let (n, f, k, digest) = hash_message-ok ssh r hash_sha512 d m in
      let signed =
        sign_blob-verify signer (signed_data ssh ns hash_sha512 d) sig.signature honest b in
      let sound : IsSound ssh sig = record {
        version_is = parts.version_is;
        rest_fits = fits;
        no_reserved = parts.no_reserved;
        has_namespace = λ z. parts.has_namespace (sym parts.namespace_is ∙ z);
        no_nul = ap (mem_byte 0) parts.namespace_is ∙ parts.no_nul;
        hash_known = inr (inl parts.hash_is);
        format_fits = format;
      } in
      let verified : IsVerified ssh r sig = record {
        sound = sound;
        modern = modern;
        complete = n;
        verified = (
          f,
          ap (hash ssh) parts.hash_is ∙ k,
          cc (signed, digest, parts.key_is, parts.namespace_is, parts.hash_is),
        );
      } in
      (
        record {
          key_is = parts.key_is ∙ same;
          version_is = parts.version_is;
          namespace_is = parts.namespace_is;
          hash_is = parts.hash_is;
          no_reserved = parts.no_reserved;
          has_namespace = parts.has_namespace;
          no_nul = parts.no_nul;
        },
        (verify_iff ssh r sig).1 verified,
      )

-- ===== src/Flow/Check/Policy.antt =====
-- When `check` reports no error, and what its statuses mean.
use ssh_sign.Prelude.{
  true, not, ◌≡◌, ◌↔◌, refl, ◌∙◌, arith, List, [], ◌∷◌, Option, none, some, ok, err, Result,
  Bool-cases, inl, inr, ◌⊎◌, map_err, if◌then◌else◌, >>=-eq-ok, map_err-eq-ok,
}
use ssh_sign.Text.Bytes.{bytes_eq, bytes_eq_iff}
use ssh_sign.Text.Scan.{Reader}
use ssh_sign.Ssh.{Ssh}
use ssh_sign.Sshsig.PublicKey.{public_key_equal}
use ssh_sign.Sshsig.Certificate.{CertError, certificate_valid_at}
use ssh_sign.Sshsig.Structure.{Signature}
use ssh_sign.Sshsig.Protocol.{verify as verify_signature}
use ssh_sign.Sshsig.Armored.{Pem, signature_read}
use ssh_sign.Signers.Timestamp.{Time}
use ssh_sign.Flow.Choice.{FlowError, unreadable_signature, other_key, certificate_errors}
use ssh_sign.Flow.Choice.Laws.{append-eq-nil, with_verification_iff}
use ssh_sign.Flow.Verify.{timestamp_or}
use ssh_sign.Flow.Check.{
  CheckOpts, option_errors, expected_key, authenticate, designate, check_signature, check_readers,
  check_parse, check_with, check,
}

module _ (ssh : Ssh) (decode_pem : Pem) where
  open ssh use {PublicKey, marshal_key}

  -- The signer is the expected key and its certificate, if it is one, is valid; with no key to
  -- expect anything goes.
  abbrev pub KeyAccepted : Option PublicKey → Signature PublicKey → Time → Type 0
  KeyAccepted none sig ts = Unit
  KeyAccepted (some pk) sig ts =
      (marshal_key pk ≡ marshal_key sig.public_key)
      × (certificate_valid_at ssh sig.public_key ts ≡ ok tt)

  abbrev pub NamespaceAccepted : CheckOpts → Signature PublicKey → Type 0
  NamespaceAccepted opts sig = (opts.no_namespace ≡ true) ⊎ (opts.namespace ≡ sig.namespace)

  authenticate_iff :
      (key : Option PublicKey) (sig : Signature PublicKey) (ts : Time)
      → ((authenticate ssh decode_pem key sig ts).1 ≡ []) ↔ KeyAccepted key sig ts
  unfolding authenticate public_key_equal
  authenticate_iff none sig ts = (λ h. tt, λ h. refl)
  authenticate_iff (some pk) sig ts = (
    λ h. let (k, c) = (append-eq-nil _ _).0 h in (same_key k, certified _ c),
    λ (k, c). rw ((bytes_eq_iff _ _).1 k, c),
  )
    where
      same_key :
          (if not (bytes_eq (marshal_key pk) (marshal_key sig.public_key))
              then other_key ∷ []
              else [])
            ≡ []
          → marshal_key pk ≡ marshal_key sig.public_key
      same_key h = ground (arith, bytes_eq_iff (marshal_key pk) (marshal_key sig.public_key))

      certified : (c : Result CertError (Unit {0})) → certificate_errors c ≡ [] → c ≡ ok tt
      certified (ok tt) h = refl
      certified (err e) h = cc

  designate_iff :
      (opts : CheckOpts) (sig : Signature PublicKey)
      → ((designate ssh decode_pem opts sig).1 ≡ []) ↔ NamespaceAccepted opts sig
  unfolding designate
  designate_iff opts sig = elim (Bool-cases opts.no_namespace) [
    | inl t ↦ (λ h. inl t, λ h. rw t)
    | inr f ↦ elim (Bool-cases (bytes_eq opts.namespace sig.namespace)) [
      | inl e ↦ (λ h. inr ((bytes_eq_iff _ _).0 e), λ h. rw (f, e))
      | inr d ↦
          (λ h. cc (rw (f, d) at h), λ h. ground (arith, bytes_eq_iff opts.namespace sig.namespace))
    ]
  ]

  -- The checks of a signature that has been read report no error exactly if they all pass.
  check_signature_iff :
      (opts : CheckOpts) (key : Option PublicKey) (sig : Signature PublicKey) (ts : Time)
      (v : Reader)
      → ((check_signature ssh decode_pem opts key sig ts v).1 ≡ []) ↔ (
          KeyAccepted key sig ts
          × NamespaceAccepted opts sig
          × (verify_signature ssh v sig ≡ ok tt))
  unfolding check_signature
  check_signature_iff opts key sig ts v = (
    λ h.
        let (e, c) = (with_verification_iff _ _ _).0 h in
        let (a, d) = (append-eq-nil _ _).0 e in
        ((authenticate_iff key sig ts).0 a, (designate_iff opts sig).0 d, c),
    λ (a, d, c). (with_verification_iff _ _ _).1 (
      (append-eq-nil _ _).1 ((authenticate_iff key sig ts).1 a, (designate_iff opts sig).1 d),
      c,
    ),
  )

  -- What `check` has to find for a signature to pass.
  pub record IsAccepted (now : Time) (opts : CheckOpts) : Type 0 where
    pub signature_file : Reader
    pub verify_file : Reader
    pub signature : Signature PublicKey
    pub key : Option PublicKey
    pub has_signature_file : opts.signature_file ≡ some signature_file
    pub has_verify_file : opts.verify_file ≡ some verify_file
    pub options_fit : option_errors ssh decode_pem opts ≡ []
    pub is_expected : expected_key ssh decode_pem opts ≡ ok key
    pub is_read : signature_read ssh decode_pem signature_file ≡ ok signature
    pub key_accepted : KeyAccepted key signature (timestamp_or now opts.timestamp)
    pub namespace_accepted : NamespaceAccepted opts signature
    pub verified : verify_signature ssh verify_file signature ≡ ok tt

  readers-ok :
      (opts : CheckOpts) (s v : Reader)
      → check_readers ssh decode_pem opts ≡ ok (s, v)
      → (opts.signature_file ≡ some s) × (opts.verify_file ≡ some v)
  unfolding check_readers
  readers-ok opts s v h = ground arith

  parse-ok :
      (opts : CheckOpts) (s : Reader) (key : Option PublicKey) (sig : Signature PublicKey)
      → check_parse ssh decode_pem opts s ≡ ok (key, sig)
      → (expected_key ssh decode_pem opts ≡ ok key) × (signature_read ssh decode_pem s ≡ ok sig)
  unfolding check_parse
  parse-ok opts s key sig h =
      let (k, e, h1) = >>=-eq-ok (expected_key ssh decode_pem opts) _ h in
      let (g, r, h2) =
        >>=-eq-ok (map_err unreadable_signature (signature_read ssh decode_pem s)) _ h1 in
      (e ∙ cc h2, map_err-eq-ok unreadable_signature _ r ∙ cc h2)

  module _ (now : Time) (opts : CheckOpts) where
    IsAccepted-with :
        (s v : Reader)
        → opts.signature_file ≡ some s
        → opts.verify_file ≡ some v
        → option_errors ssh decode_pem opts ≡ []
        → (check_with ssh decode_pem now opts s v).1 ≡ []
        → IsAccepted now opts
    unfolding check_with
    IsAccepted-with s v hs hv o h = go (check_parse ssh decode_pem opts s) refl
      where
        go :
            (r : Result FlowError (Option PublicKey × Signature PublicKey))
            → check_parse ssh decode_pem opts s ≡ r
            → IsAccepted now opts
        go (err e) p = cc (rw (p, check_with) at h)
        go (ok (key, sig)) p =
            let (k, r) = parse-ok opts s key sig p in
            let (a, n, c) =
              (check_signature_iff opts key sig (timestamp_or now opts.timestamp) v).0
                (rw (p, check_with) at h) in
            record {
              signature_file = s;
              verify_file = v;
              signature = sig;
              key = key;
              has_signature_file = hs;
              has_verify_file = hv;
              options_fit = o;
              is_expected = k;
              is_read = r;
              key_accepted = a;
              namespace_accepted = n;
              verified = c;
            }

    IsAccepted-check : (check ssh decode_pem now opts).1 ≡ [] → IsAccepted now opts
    unfolding check
    IsAccepted-check h = go (check_readers ssh decode_pem opts) refl
      where
        go :
            (r : Result FlowError (Reader × Reader))
            → check_readers ssh decode_pem opts ≡ r
            → IsAccepted now opts
        go (err e) p = cc (rw (p, check) at h)
        go (ok (s, v)) p = with_options (option_errors ssh decode_pem opts) refl
          where
            with_options :
                (es : List FlowError) → option_errors ssh decode_pem opts ≡ es → IsAccepted now opts
            with_options [] o =
                let (hs, hv) = readers-ok opts s v p in
                IsAccepted-with s v hs hv o (rw (p, o, check) at h)
            with_options (e ∷ es) o = cc (rw (p, o, check) at h)

    readers-accepted :
        (w : IsAccepted now opts)
        → check_readers ssh decode_pem opts ≡ ok (w.signature_file, w.verify_file)
    unfolding check_readers
    readers-accepted w = simp (w.has_signature_file, w.has_verify_file)

    parse-accepted :
        (w : IsAccepted now opts)
        → check_parse ssh decode_pem opts w.signature_file ≡ ok (w.key, w.signature)
    unfolding check_parse
    parse-accepted w = simp (w.is_expected, w.is_read)

    with-accepted :
        (w : IsAccepted now opts)
        → (check_with ssh decode_pem now opts w.signature_file w.verify_file).1 ≡ []
    unfolding check_with
    with-accepted w =
        rw (parse-accepted w, check_with)
          ((check_signature_iff opts w.key w.signature (timestamp_or now opts.timestamp)
              w.verify_file).1
            (w.key_accepted, w.namespace_accepted, w.verified))

    check-accepted : IsAccepted now opts → (check ssh decode_pem now opts).1 ≡ []
    unfolding check
    check-accepted w = rw (readers-accepted w, check) (rw (w.options_fit, check) (with-accepted w))

  -- `Check` reports no error exactly if the options fit together, the signature can be read, the
  -- signer is the expected key with a certificate valid at the time (or no key is expected), the
  -- namespace is the expected one (or none is), and the signature verifies the data.
  pub check_iff :
      (now : Time) (opts : CheckOpts)
      → ((check ssh decode_pem now opts).1 ≡ []) ↔ IsAccepted now opts
  check_iff now opts = (IsAccepted-check now opts, check-accepted now opts)

-- ===== src/Flow/Verify/Policy.antt =====
-- When `verify` reports no error.
use ssh_sign.Prelude.{
  Bool, true, ◌≡◌, ◌≢◌, ◌↔◌, refl, arith, [], Option, none, some, ok, err, Result, Bool-cases, inl,
  inr, ◌⊎◌, is_nil,
}
use ssh_sign.Text.Bytes.{bytes_eq, bytes_eq_iff}
use ssh_sign.Text.Scan.{Reader}
use ssh_sign.Ssh.{Ssh}
use ssh_sign.Sshsig.Certificate.{CertError, certificate_valid_at}
use ssh_sign.Sshsig.Structure.{Signature}
use ssh_sign.Sshsig.Protocol.{verify as verify_signature}
use ssh_sign.Sshsig.Armored.{Pem}
use ssh_sign.Signers.Timestamp.{Time}
use ssh_sign.Signers.Line.{Entry, Machine}
use ssh_sign.Signers.File.{File}
use ssh_sign.Signers.Match.{Found, entry, rejected, nothing}
use ssh_sign.Flow.Choice.{Status, FlowError}
use ssh_sign.Flow.Choice.Laws.{append-eq-nil, with_verification_iff}
use ssh_sign.Flow.Verify.{
  VerifyOpts, error_list, resolve_designation, resolve_authentication, certificate_check,
  match_signer, verify_found, verify_parse, timestamp_or, verify,
}

module _ {K : Type 0} where
  -- What makes the namespace of a matched entry's signature acceptable: it is not to be checked,
  -- or it is the expected one, or none is expected and the entry restricts namespaces.
  abbrev pub NamespaceAccepted : VerifyOpts → Signature K → Bool → Type 0
  NamespaceAccepted opts sig restricted =
      (opts.no_namespace ≡ true)
      ⊎ (((opts.namespace ≡ []) × (restricted ≡ true))
          ⊎ ((opts.namespace ≢ []) × (opts.namespace ≡ sig.namespace)))

  accepted-designation :
      (opts : VerifyOpts) (sig : Signature K) (ent : Entry K) (restricted : Bool)
      → NamespaceAccepted opts sig restricted
      → (resolve_designation opts sig (entry ent restricted)).1 ≡ none
  unfolding resolve_designation
  accepted-designation opts sig ent restricted (inl t) = rw t
  accepted-designation opts sig ent restricted (inr (inl (e, t))) = ground arith
  accepted-designation opts sig ent restricted (inr (inr (n, e))) =
      ground (arith, bytes_eq_iff opts.namespace sig.namespace)

  designation-accepted :
      (opts : VerifyOpts) (sig : Signature K) (ent : Entry K) (restricted : Bool)
      → (resolve_designation opts sig (entry ent restricted)).1 ≡ none
      → NamespaceAccepted opts sig restricted
  unfolding resolve_designation
  designation-accepted opts sig ent restricted h = elim (Bool-cases opts.no_namespace) [
    | inl t ↦ inl t
    | inr f ↦ elim (Bool-cases (is_nil opts.namespace)) [
      | inl e ↦ inr (inl (ground arith, ground arith))
      | inr n ↦ elim (Bool-cases (bytes_eq opts.namespace sig.namespace)) [
        | inl s ↦ inr (inr (ground arith, (bytes_eq_iff _ _).0 s))
        | inr d ↦ cc (rw (f, n, d) at h)
      ]
    ]
  ]

  -- The authentication reports no error exactly if an entry was found.
  authentication-entry :
      (opts : VerifyOpts) (found : Found K)
      → (resolve_authentication opts found).2 ≡ none
      → (ent : Entry K) × (restricted : Bool) × (found ≡ entry ent restricted)
  unfolding resolve_authentication
  authentication-entry opts (entry ent restricted) h = (ent, restricted, refl)
  authentication-entry opts (rejected e) h = cc
  authentication-entry opts nothing h = cc

  entry-authentication :
      (opts : VerifyOpts) (ent : Entry K) (restricted : Bool)
      → (resolve_authentication opts (entry ent restricted)).2 ≡ none
  unfolding resolve_authentication
  entry-authentication opts ent restricted = ground arith

error_list_iff : (o : Option FlowError) → (error_list o ≡ []) ↔ (o ≡ none)
error_list_iff none = (λ h. refl, λ h. refl)
error_list_iff (some e) = (λ h. cc, λ h. cc)

module _ (m : Machine) (ssh : Ssh) (decode_pem : Pem) where
  open ssh use {PublicKey}

  certificate_check_iff :
      (sig : Signature PublicKey) (ts : Time) (status : Status)
      → ((certificate_check m ssh decode_pem sig ts status).1 ≡ [])
        ↔ (certificate_valid_at ssh sig.public_key ts ≡ ok tt)
  unfolding certificate_check
  certificate_check_iff sig ts status = go (certificate_valid_at ssh sig.public_key ts) refl
    where
      go :
          (c : Result CertError (Unit {0}))
          → certificate_valid_at ssh sig.public_key ts ≡ c
          → ((certificate_check m ssh decode_pem sig ts status).1 ≡ []) ↔ (c ≡ ok tt)
      go (ok tt) e = (λ h. refl, λ h. rw (e, certificate_check))
      go (err x) e = (λ h. cc (rw (e, certificate_check) at h), λ h. cc)

  -- What `verify` has to find for a signature to pass.
  pub record IsAccepted (now : Time) (opts : VerifyOpts) : Type 0 where
    pub parsed : File PublicKey
    pub signature : Signature PublicKey
    pub verify_file : Reader
    pub signer : Entry PublicKey
    pub restricted : Bool
    pub is_read : verify_parse m ssh decode_pem opts ≡ ok (parsed, signature, verify_file)
    pub matched :
        match_signer m ssh decode_pem opts parsed signature (timestamp_or now opts.timestamp)
        ≡ entry signer restricted
    pub namespace_accepted : NamespaceAccepted opts signature restricted
    pub certificate_accepted :
        certificate_valid_at ssh signature.public_key (timestamp_or now opts.timestamp) ≡ ok tt
    pub verified : verify_signature ssh verify_file signature ≡ ok tt

  -- The checks after the match report no error exactly if an entry was found and the namespace,
  -- the certificate and the signature are in order.
  found-accepted :
      (opts : VerifyOpts) (sig : Signature PublicKey) (found : Found PublicKey) (ts : Time)
      (v : Reader)
      → (verify_found m ssh decode_pem opts sig found ts v).1 ≡ []
      → (ent : Entry PublicKey) × (restricted : Bool) × (found ≡ entry ent restricted)
        × NamespaceAccepted opts sig restricted
        × (certificate_valid_at ssh sig.public_key ts ≡ ok tt)
        × (verify_signature ssh v sig ≡ ok tt)
  unfolding verify_found
  found-accepted opts sig found ts v h =
      let (e, c) = (with_verification_iff _ _ _).0 h in
      let (d, e1) = (append-eq-nil _ _).0 e in
      let (a, x) = (append-eq-nil _ _).0 e1 in
      let (ent, restricted, same) = authentication-entry opts found ((error_list_iff _).0 a) in
      let n = (error_list_iff _).0 (rw same at d) in
      (
        ent,
        restricted,
        same,
        designation-accepted opts sig ent restricted n,
        (certificate_check_iff sig ts _).0 x,
        c,
      )

  accepted-found :
      (opts : VerifyOpts) (sig : Signature PublicKey) (ent : Entry PublicKey) (restricted : Bool)
      (ts : Time) (v : Reader)
      → NamespaceAccepted opts sig restricted
      → certificate_valid_at ssh sig.public_key ts ≡ ok tt
      → verify_signature ssh v sig ≡ ok tt
      → (verify_found m ssh decode_pem opts sig (entry ent restricted) ts v).1 ≡ []
  unfolding verify_found
  accepted-found opts sig ent restricted ts v n x c = (with_verification_iff _ _ _).1 (
    (append-eq-nil _ _).1 (
      (error_list_iff _).1 (accepted-designation opts sig ent restricted n),
      (append-eq-nil _ _).1 (
        (error_list_iff _).1 (entry-authentication opts ent restricted),
        (certificate_check_iff sig ts _).1 x,
      ),
    ),
    c,
  )

  verify-IsAccepted :
      (now : Time) (opts : VerifyOpts)
      → (verify m ssh decode_pem now opts).1 ≡ []
      → IsAccepted now opts
  unfolding verify
  verify-IsAccepted now opts h = go (verify_parse m ssh decode_pem opts) refl
    where
      go :
          (r : Result FlowError (File PublicKey × Signature PublicKey × Reader))
          → verify_parse m ssh decode_pem opts ≡ r
          → IsAccepted now opts
      go (err e) p = cc (rw (p, verify) at h)
      go (ok (parsed, sig, v)) p =
          let ts = timestamp_or now opts.timestamp in
          let (ent, restricted, same, n, x, c) =
            found-accepted opts sig (match_signer m ssh decode_pem opts parsed sig ts) ts v
              (rw (p, verify) at h) in
          record {
            parsed = parsed;
            signature = sig;
            verify_file = v;
            signer = ent;
            restricted = restricted;
            is_read = p;
            matched = same;
            namespace_accepted = n;
            certificate_accepted = x;
            verified = c;
          }

  accepted-verify :
      (now : Time) (opts : VerifyOpts)
      → IsAccepted now opts
      → (verify m ssh decode_pem now opts).1 ≡ []
  unfolding verify
  accepted-verify now opts w =
      rw (w.is_read, verify)
        (rw (w.matched) (
          accepted-found opts w.signature w.signer w.restricted (timestamp_or now opts.timestamp)
            w.verify_file w.namespace_accepted w.certificate_accepted w.verified))

  -- `Verify` reports no error exactly if its inputs can be read, the allowed signers have an entry
  -- that accepts the signer, the namespace is acceptable, a certificate is valid at the time and
  -- the signature verifies the data.
  pub verify_accepts_iff :
      (now : Time) (opts : VerifyOpts)
      → ((verify m ssh decode_pem now opts).1 ≡ []) ↔ IsAccepted now opts
  verify_accepts_iff now opts = (verify-IsAccepted now opts, accepted-verify now opts)

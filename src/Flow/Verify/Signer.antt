-- ===== src/Flow/Verify/Signer.antt =====
-- Who is accepted by `verify`: the allowed signers entry behind a result without errors.
use ssh_sign.Prelude.{Bool, true, false, [], ok, ◌≡◌, arith, Bool-cases, ◌⊎◌, inl, inr, is_nil, Mem}
use ssh_sign.Text.Bytes.{Bytes, bytes_eq_iff}
use ssh_sign.Text.Scan.{Reader}
use ssh_sign.Ssh.{Ssh}
use ssh_sign.Sshsig.PublicKey.{public_key_equal}
use ssh_sign.Sshsig.Certificate.{as_certificate}
use ssh_sign.Sshsig.Certificate.Window.{AcceptedAt, certificate_valid_at_iff}
use ssh_sign.Sshsig.Structure.{Signature}
use ssh_sign.Sshsig.Protocol.Laws.{IsVerified, verify_iff as verify_signature_iff}
use ssh_sign.Sshsig.Armored.{Pem}
use ssh_sign.Signers.Pattern.{patterns_match, pattern_list_match}
use ssh_sign.Signers.Timestamp.{Time}
use ssh_sign.Signers.Line.{Entry, Machine}
use ssh_sign.Signers.File.{File}
use ssh_sign.Signers.Match.{
  Mode, ignored, checked, required, is_ignored, Found, entry, rejected, nothing, unflagged,
  too_early, too_late, is_candidate, is_restricted, match_entry_in, match_entry,
  match_entry_ignoring_namespace, match_entry_restricting_namespace,
}
use ssh_sign.Signers.Match.Selected.{match_entry-IsSelected}
use ssh_sign.Flow.Verify.{VerifyOpts, match_signer, timestamp_or, verify, verify_parse}
use ssh_sign.Flow.Verify.Policy.{NamespaceAccepted, verify_accepts_iff}

module _ (ssh : Ssh) where
  -- The entry accepts the signer in every respect but the namespace.
  pub record Fits (pk : ssh.PublicKey) (principal : Bytes) (ts : Time) (f : File ssh.PublicKey)
      (ent : Entry ssh.PublicKey) : Type 0 where
    pub in_file : Mem ent f.entries
    pub key_is : ssh.marshal_key ent.public_key ≡ ssh.marshal_key pk
    pub principal_fits : (principal ≡ []) ⊎ (pattern_list_match ent.principal principal ≡ true)
    pub begun : too_early ts ent.options.valid_after ≡ false
    pub not_over : too_late ts ent.options.valid_before ≡ false

  abbrev pub Permits : Bytes → Entry ssh.PublicKey → Type 0
  Permits ns ent = (ent.options.namespaces ≡ []) ⊎ (patterns_match ent.options.namespaces ns ≡ true)

  module _ (pk : ssh.PublicKey) (principal ns : Bytes) (ts : Time) (mode : Mode) where
    selected-Fits :
        (f : File ssh.PublicKey) (ent : Entry ssh.PublicKey) (b : Bool)
        → match_entry_in ssh pk principal ns ts mode f ≡ entry ent b
        → Fits pk principal ts f ent × ((is_ignored mode ≡ true) ⊎ Permits ns ent)
    unfolding is_candidate is_restricted public_key_equal
    selected-Fits f ent b h =
        let s = match_entry-IsSelected ssh pk principal ns ts mode f ent b h in
        let u = s.accepts in
        (
          record {
            in_file = s.in_file;
            key_is = (bytes_eq_iff _ _).0 (ground arith);
            principal_fits = elim (Bool-cases (is_nil principal)) [
              | inl e ↦ inl (ground arith)
              | inr n ↦ inr (ground arith)
            ];
            begun = ground arith;
            not_over = ground arith;
          },
          elim (Bool-cases (is_ignored mode)) [
            | inl i ↦ inl i
            | inr c ↦ elim (Bool-cases (is_nil ent.options.namespaces)) [
              | inl e ↦ inr (inl (ground arith))
              | inr n ↦ inr (inr (ground arith))
            ]
          ],
        )

unflagged-entry :
    {K : Type 0} (found : Found K) (ent : Entry K) (b : Bool)
    → unflagged found ≡ entry ent b
    → (c : Bool) × (found ≡ entry ent c)
unflagged-entry (entry x c) ent b h = (c, cc)
unflagged-entry (rejected e) ent b h = cc
unflagged-entry nothing ent b h = cc

module _ (m : Machine) (ssh : Ssh) (decode_pem : Pem) where
  open ssh use {PublicKey}

  -- Behind an accepted signature: an entry of the allowed signers files that were read names the
  -- principal and the key, and permits the namespace and the time.
  pub record IsAuthorized (now : Time) (opts : VerifyOpts) : Type 0 where
    pub parsed : File PublicKey
    pub signature : Signature PublicKey
    pub verify_file : Reader
    pub signer : Entry PublicKey
    pub is_read : verify_parse m ssh decode_pem opts ≡ ok (parsed, signature, verify_file)
    pub fits :
        Fits ssh signature.public_key opts.principal (timestamp_or now opts.timestamp) parsed signer
    pub namespace_permitted : (opts.no_namespace ≡ true) ⊎ Permits ssh signature.namespace signer
    pub namespace_is :
        (opts.no_namespace ≡ true)
        ⊎ (((opts.namespace ≡ []) × (is_nil signer.options.namespaces ≡ false))
            ⊎ (opts.namespace ≡ signature.namespace))
    pub certificate_valid :
        AcceptedAt ssh (timestamp_or now opts.timestamp) (as_certificate ssh signature.public_key)
    pub message_verified : IsVerified ssh verify_file signature

  matched-Fits :
      (opts : VerifyOpts) (parsed : File PublicKey) (sig : Signature PublicKey) (ts : Time)
      (ent : Entry PublicKey) (b : Bool)
      → match_signer m ssh decode_pem opts parsed sig ts ≡ entry ent b
      → Fits ssh sig.public_key opts.principal ts parsed ent
        × ((opts.no_namespace ≡ true) ⊎ Permits ssh sig.namespace ent)
  unfolding match_signer match_entry match_entry_ignoring_namespace
      match_entry_restricting_namespace
  matched-Fits opts parsed sig ts ent b h = elim (Bool-cases opts.no_namespace) [
    | inl i ↦
        let (c, k) = unflagged-entry _ ent b (rw i at h) in
        ((selected-Fits ssh sig.public_key opts.principal [] ts ignored parsed ent c k).0, inl i)
    | inr n ↦ elim (Bool-cases (is_nil opts.namespace)) [
      | inl e ↦
          permitted
            (selected-Fits ssh sig.public_key opts.principal sig.namespace ts required parsed ent b
              (rw (n, e) at h))
            (λ t. cc t)
      | inr g ↦
          let (c, k) = unflagged-entry _ ent b (rw (n, g) at h) in
          permitted
            (selected-Fits ssh sig.public_key opts.principal sig.namespace ts checked parsed ent c
              k)
            (λ t. cc t)
    ]
  ]
    where
      permitted :
          {b : Bool}
          → Fits ssh sig.public_key opts.principal ts parsed ent
            × ((b ≡ true) ⊎ Permits ssh sig.namespace ent)
          → ¬ (b ≡ true)
          → Fits ssh sig.public_key opts.principal ts parsed ent
            × ((opts.no_namespace ≡ true) ⊎ Permits ssh sig.namespace ent)
      permitted (f, inl t) c = absurd (c t)
      permitted (f, inr p) c = (f, inr p)

  -- An entry that is to settle an inferred namespace restricts namespaces.
  flagged-restricts :
      (opts : VerifyOpts) (parsed : File PublicKey) (sig : Signature PublicKey) (ts : Time)
      (ent : Entry PublicKey) (b : Bool)
      → match_signer m ssh decode_pem opts parsed sig ts ≡ entry ent b
      → NamespaceAccepted opts sig b
      → opts.no_namespace ≡ false
      → opts.namespace ≡ []
      → is_nil ent.options.namespaces ≡ false
  unfolding match_signer match_entry_restricting_namespace is_restricted
  flagged-restricts opts parsed sig ts ent b h (inl t) n e = cc
  flagged-restricts opts parsed sig ts ent b h (inr (inr (d, s))) n e = absurd (d e)
  flagged-restricts opts parsed sig ts ent b h (inr (inl (e', r))) n e =
      let s =
        match_entry-IsSelected ssh sig.public_key opts.principal sig.namespace ts required parsed
          ent b (rw (n, e) at h) in
      let flag = s.flag_is in ground arith

  namespace-is :
      (opts : VerifyOpts) (parsed : File PublicKey) (sig : Signature PublicKey) (ts : Time)
      (ent : Entry PublicKey) (b : Bool)
      → match_signer m ssh decode_pem opts parsed sig ts ≡ entry ent b
      → NamespaceAccepted opts sig b
      → (opts.no_namespace ≡ true)
        ⊎ (((opts.namespace ≡ []) × (is_nil ent.options.namespaces ≡ false))
            ⊎ (opts.namespace ≡ sig.namespace))
  namespace-is opts parsed sig ts ent b h (inl t) = inl t
  namespace-is opts parsed sig ts ent b h (inr (inr (d, e))) = inr (inr e)
  namespace-is opts parsed sig ts ent b h (inr (inl (e, r))) = elim (Bool-cases opts.no_namespace) [
    | inl t ↦ inl t
    | inr n ↦ inr (inl (e, flagged-restricts opts parsed sig ts ent b h (inr (inl (e, r))) n e))
  ]

  -- A run of `verify` without errors rests on an entry of the allowed signers that were read which
  -- holds the signature's key, fits the principal if one is asked for, permits the signature's
  -- namespace unless namespaces are ignored, and is valid at the time. Unless namespaces are
  -- ignored, the namespace is the one asked for, or none is asked for and the entry restricts
  -- namespaces. A certificate is valid at the time, and the signature is sound and verified by its
  -- key over the whole message.
  pub verify-IsAuthorized :
      (now : Time) (opts : VerifyOpts)
      → (verify m ssh decode_pem now opts).1 ≡ []
      → IsAuthorized now opts
  verify-IsAuthorized now opts h =
      let w = (verify_accepts_iff m ssh decode_pem now opts).0 h in
      let (f, p) =
        matched-Fits opts w.parsed w.signature (timestamp_or now opts.timestamp) w.signer
          w.restricted w.matched in
      record {
        parsed = w.parsed;
        signature = w.signature;
        verify_file = w.verify_file;
        signer = w.signer;
        is_read = w.is_read;
        fits = f;
        namespace_permitted = p;
        namespace_is =
            namespace-is opts w.parsed w.signature (timestamp_or now opts.timestamp) w.signer
              w.restricted w.matched w.namespace_accepted;
        certificate_valid =
            (certificate_valid_at_iff ssh w.signature.public_key
                (timestamp_or now opts.timestamp)).0
              w.certificate_accepted;
        message_verified = (verify_signature_iff ssh w.verify_file w.signature).0 w.verified;
      }

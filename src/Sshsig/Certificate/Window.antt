-- ===== src/Sshsig/Certificate/Window.antt =====
-- When `certificate_valid_at` accepts a key.
use ssh_sign.Prelude.{
  ℕ, ◌^◌, ◌<◌, false, Option, none, some, ◌≡◌, refl, ◌⊎◌, inl, inr, ◌↔◌, arith, ok, err, ℤ, pos,
  negsuc, ◌<ℤ◌, ◌≤ℤ◌, Result, ◌==◌, ==_iff, Bool-cases,
}
use ssh_sign.Ssh.{Ssh, Certificate}
use ssh_sign.Sshsig.Certificate.{
  check_window, cert_time_infinity, user_cert, as_certificate, certificate_valid_at,
  check_user_certificate, CertError,
}
use ssh_sign.Signers.Timestamp.{Time}

-- The certificate's window holds the instant: its first second is in it, its last is not. A
-- bound from 2 ^ 63 on, which no signed clock reaches, is refused, except for infinity.
pub record InWindow (valid_after valid_before : ℕ) (unix : ℤ) : Type 0 where
  pub starts : valid_after < 2 ^ 63
  pub started : pos valid_after ≤ℤ unix
  pub ends :
      (valid_before ≡ cert_time_infinity) ⊎ ((valid_before < 2 ^ 63) × (unix <ℤ pos valid_before))

check_window-ends :
    (after before : ℕ) (unix : ℤ)
    → check_window after before unix ≡ ok tt
    → (before == cert_time_infinity) ≡ false
    → (before < 2 ^ 63) × (unix <ℤ pos before)
unfolding check_window
check_window-ends after before (pos n) h f = ground arith
check_window-ends after before (negsuc n) h f = ground arith

check_window-InWindow :
    (after before : ℕ) (unix : ℤ)
    → check_window after before unix ≡ ok tt
    → InWindow after before unix
unfolding check_window
check_window-InWindow after before unix h = record {
  starts = go_starts unix h;
  started = go_started unix h;
  ends = elim (Bool-cases (before == cert_time_infinity)) [
    | inl never ↦ inl ((==_iff _ _).0 never)
    | inr f ↦ inr (check_window-ends after before unix h f)
  ];
}
  where
    go_starts : (u : ℤ) → check_window after before u ≡ ok tt → after < 2 ^ 63
    go_starts (pos n) e = ground arith
    go_starts (negsuc n) e = ground arith

    go_started : (u : ℤ) → check_window after before u ≡ ok tt → pos after ≤ℤ u
    go_started (pos n) e = ground arith
    go_started (negsuc n) e = ground arith

InWindow-check_window :
    (after before : ℕ) (unix : ℤ)
    → InWindow after before unix
    → check_window after before unix ≡ ok tt
unfolding check_window
InWindow-check_window after before (pos n) w = ground arith
InWindow-check_window after before (negsuc n) w = ground arith

module _ (ssh : Ssh) where
  -- A plain key, or a user certificate whose window holds the instant.
  abbrev pub AcceptedAt : Time → Result CertError (Option (Certificate ssh.PublicKey)) → Type 0
  AcceptedAt at (err e) = ⊥
  AcceptedAt at (ok none) = Unit
  AcceptedAt at (ok (some cert)) =
      (cert.cert_type ≡ user_cert) × InWindow cert.valid_after cert.valid_before at.unix

  user-AcceptedAt :
      (cert : Certificate ssh.PublicKey) (at : Time)
      → (check_user_certificate ssh cert at ≡ ok tt) ↔ AcceptedAt at (ok (some cert))
  unfolding check_user_certificate
  user-AcceptedAt cert at = elim (Bool-cases (cert.cert_type == user_cert)) [
    | inl user ↦ (
      λ h. ((==_iff _ _).0 user, check_window-InWindow _ _ _ (rw user at h)),
      λ w. rw user (InWindow-check_window _ _ _ w.1),
    )
    | inr host ↦ (λ h. cc (rw host at h), λ w. ground (arith, ==_iff cert.cert_type user_cert))
  ]

  accepts :
      (at : Time) (r : Result CertError (Option (Certificate ssh.PublicKey)))
      → (elim r as (λ x. Result CertError (Unit {0})) [
        | err e ↦ err e
        | ok found ↦ elim found [ none ↦ ok tt | some cert ↦ check_user_certificate ssh cert at ]
      ]
          ≡ ok tt)
        ↔ AcceptedAt at r
  accepts at (err e) = (λ h. cc, λ w. absurd w)
  accepts at (ok none) = (λ h. tt, λ w. refl)
  accepts at (ok (some cert)) = user-AcceptedAt cert at

  -- A key passes exactly if it is no certificate, or one that can be read as a user certificate,
  -- begins no later than the instant, and ends after it or never; a beginning or an end from 2 ^
  -- 63 on is refused, but for the end that means never.
  pub certificate_valid_at_iff :
      (pk : ssh.PublicKey) (at : Time)
      → (certificate_valid_at ssh pk at ≡ ok tt) ↔ AcceptedAt at (as_certificate ssh pk)
  unfolding certificate_valid_at
  certificate_valid_at_iff pk at = accepts at (as_certificate ssh pk)

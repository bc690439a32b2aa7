-- ===== src/Flow/Choice/Laws.antt =====
-- Gathered errors, and the verification that both commands end with.
use ssh_sign.Prelude.{
  Bool, subst, ap, ◌≡◌, ◌↔◌, refl, List, [], ◌∷◌, ◌++◌, some, ok, err, Result, Bool-cases, inl, inr,
  false, true,
}
use ssh_sign.Sshsig.Structure.{SigError}
use ssh_sign.Sshsig.Protocol.{is_read_error}
use ssh_sign.Flow.Choice.{
  Status, valid, invalid, disabled, FlowError, with_verification, not_verified, read_failed,
}

abbrev pub is_invalid : Status → Bool
is_invalid valid = false
is_invalid invalid = true
is_invalid disabled = false

pub append-eq-nil {ℓ} : {A : Type ℓ} (xs ys : List A) → (xs ++ ys ≡ []) ↔ ((xs ≡ []) × (ys ≡ []))
append-eq-nil [] ys = (λ h. (refl, h), λ h. h.1)
append-eq-nil (x ∷ xs) ys = (λ h. cc, λ h. cc h.0)

module _ {R : Type 0} where
  fails :
      (e : SigError) (errs : List FlowError) (finish : Status → R)
      → ¬ ((with_verification (err e) errs finish).1 ≡ [])
  unfolding with_verification
  fails e errs finish h = elim (Bool-cases (is_read_error e)) [
    | inl t ↦ cc ((append-eq-nil errs (read_failed e ∷ [])).0 (rw t at h)).1
    | inr f ↦ cc ((append-eq-nil errs (not_verified e ∷ [])).0 (rw f at h)).1
  ]

  -- There are no errors exactly if there were none before and the signature verifies.
  pub with_verification_iff :
      (c : Result SigError (Unit {0})) (errs : List FlowError) (finish : Status → R)
      → ((with_verification c errs finish).1 ≡ []) ↔ ((errs ≡ []) × (c ≡ ok tt))
  unfolding with_verification
  with_verification_iff (ok tt) errs finish = (λ h. (h, refl), λ h. h.0)
  with_verification_iff (err e) errs finish = (λ h. absurd (fails e errs finish h), λ h. cc h.1)

  -- Where there is a result, there are no errors exactly if its statuses are in order: `Others`
  -- says so of those that were settled before.
  pub with_verification_statuses :
      (c : Result SigError (Unit {0})) (errs : List FlowError) (finish : Status → R) (r : R)
      (Others : R → Type 0) (verification : R → Status)
      → ((s : Status) → verification (finish s) ≡ s)
      → ((s : Status) → (errs ≡ []) ↔ Others (finish s))
      → (with_verification c errs finish).0 ≡ some r
      → ((with_verification c errs finish).1 ≡ [])
        ↔ (Others r × (is_invalid (verification r) ≡ false))
  unfolding with_verification
  with_verification_statuses (ok tt) errs finish r Others verification v o h =
      let same : finish valid ≡ r = cc in
      subst (λ x. (errs ≡ []) ↔ (Others x × (is_invalid (verification x) ≡ false))) same
        (λ e. ((o valid).0 e, ap is_invalid (v valid)), λ q. (o valid).1 q.0)
  with_verification_statuses (err e) errs finish r Others verification v o h =
      elim (Bool-cases (is_read_error e)) [
        | inl t ↦ cc (rw t at h)
        | inr f ↦
            let same : finish invalid ≡ r = cc (rw f at h) in
            (
              λ n. absurd (fails e errs finish n),
              λ q. cc (q.1, ap is_invalid (v invalid), ap (λ x. is_invalid (verification x)) same),
            )
      ]

-- ===== src/Signers/Match/Usable.antt =====
-- Which entry a match selects, and what its error counts.
use ssh_sign.Prelude.{
  ◌+◌, Bool, true, false, not, ◌&&◌, ◌||◌, List, [], ◌∷◌, ◌++◌, Option, none, some, ◌≡◌, refl,
  arith, if◌then◌else◌, is_nil, is_none, any, find, count,
}
use ssh_sign.Text.Bytes.{Bytes}
use ssh_sign.Ssh.{Ssh}
use ssh_sign.Signers.Pattern.{patterns_match}
use ssh_sign.Signers.Timestamp.{Time}
use ssh_sign.Signers.Line.{Entry}
use ssh_sign.Signers.Match.{
  Mode, is_required, ConstraintError, Found, entry, rejected, nothing, too_early, too_late,
  is_candidate, is_restricted, match_loop, Round, pass, hold, accept, round, time_round,
  namespace_round, not_yet_valid, expired, namespace_mismatch, or_fallback, after_round,
}

module _ {K : Type 0} where
  -- The entry that was selected, and whether it restricts namespaces.
  abbrev pub accepted : Found K → Option (Entry K × Bool)
  accepted (entry ent restricted) = some (ent, restricted)
  accepted (rejected e) = none
  accepted nothing = none

  abbrev pub or_else : Option (Entry K × Bool) → Option (Entry K × Bool) → Option (Entry K × Bool)
  or_else (some x) y = some x
  or_else none y = y

  abbrev pub marked : Bool → Option (Entry K) → Option (Entry K × Bool)
  marked b none = none
  marked b (some ent) = some (ent, b)

is_nil-concat {ℓ} : {A : Type ℓ} (xs : List A) (x : A) → is_nil (xs ++ x ∷ []) ≡ false
is_nil-concat [] x = refl
is_nil-concat (y ∷ xs) x = refl

module _ (ssh : Ssh) (pk : ssh.PublicKey) (principal ns : Bytes) (ts : Time) (mode : Mode) where
  abbrev pub candidate : Entry ssh.PublicKey → Bool
  candidate = is_candidate ssh pk principal ns ts mode

  abbrev pub restricted : Entry ssh.PublicKey → Bool
  restricted = is_restricted ssh pk principal ns ts mode

  abbrev pub in_time : Entry ssh.PublicKey → Bool
  in_time ent =
      not (too_early ts ent.options.valid_after) && not (too_late ts ent.options.valid_before)

  -- A restricted entry whose namespaces permit `ns`, or an entry without a restriction.
  abbrev pub permits : Entry ssh.PublicKey → Bool
  permits ent = not (restricted ent) || patterns_match ent.options.namespaces ns

  -- The entry accepts the signer: principal, key, namespace and time.
  abbrev pub is_usable : Entry ssh.PublicKey → Bool
  is_usable ent = candidate ent && permits ent && in_time ent

  -- A candidate whose namespaces permit `ns`, and one whose namespaces do not.
  abbrev pub is_match : Entry ssh.PublicKey → Bool
  is_match ent = candidate ent && (restricted ent && patterns_match ent.options.namespaces ns)

  abbrev pub is_mismatch : Entry ssh.PublicKey → Bool
  is_mismatch ent =
      candidate ent && (restricted ent && not (patterns_match ent.options.namespaces ns))

  abbrev pub loop :
      ConstraintError
      → Option (Entry ssh.PublicKey)
      → List (Entry ssh.PublicKey)
      → Found ssh.PublicKey
  loop = match_loop ssh pk principal ns ts mode

  abbrev pub with_restricted : Option (Entry ssh.PublicKey) → Option (Entry ssh.PublicKey × Bool)
  with_restricted none = none
  with_restricted (some ent) = some (ent, restricted ent)

  -- A round complains of the entry only if it is a candidate, and the counters go along.
  abbrev pub Counts : ConstraintError → Entry ssh.PublicKey → ConstraintError → Type 0
  Counts e ent e' =
      (e'.candidates ≡ e.candidates + (if candidate ent then 1 else 0))
      × (e'.namespace_matches ≡ e.namespace_matches + (if is_match ent then 1 else 0))
      × (e'.namespace_mismatches ≡ e.namespace_mismatches + (if is_mismatch ent then 1 else 0))

  abbrev pub Ends : ConstraintError → Entry ssh.PublicKey → Round → Type 0
  Ends e ent (pass e') =
      (is_usable ent ≡ false)
      × (is_nil e'.messages ≡ (is_nil e.messages && not (candidate ent)))
      × Counts e ent e'
  Ends e ent (hold e') =
      (is_usable ent ≡ true)
      × (restricted ent ≡ false)
      × (is_required mode ≡ true)
      × Counts e ent e'
  Ends e ent accept = (is_usable ent ≡ true) × ((is_required mode && not (restricted ent)) ≡ false)

  round-Ends :
      (e : ConstraintError) (ent : Entry ssh.PublicKey)
      → Ends e ent (round ssh pk principal ns ts mode e ent)
  unfolding round namespace_round time_round
  round-Ends e ent = ground (
    arith,
    is_nil-concat e.messages (not_yet_valid ent.source ent.line),
    is_nil-concat e.messages (expired ent.source ent.line),
    is_nil-concat e.messages (namespace_mismatch ent.source ent.line),
  )

  abbrev pub round_of : ConstraintError → Entry ssh.PublicKey → Round
  round_of = round ssh pk principal ns ts mode

  abbrev pub Rest : Type 0
  Rest = ConstraintError → Option (Entry ssh.PublicKey) → Found ssh.PublicKey

  abbrev pub after :
      Round → Option (Entry ssh.PublicKey) → Entry ssh.PublicKey → Rest → Found ssh.PublicKey
  after = after_round ssh pk principal ns ts mode

  first-after :
      is_required mode ≡ false
      → (e : ConstraintError) (ent : Entry ssh.PublicKey) (ents : List (Entry ssh.PublicKey))
        (go : Rest) (r : Round)
      → Ends e ent r
      → ((e' : ConstraintError) → accepted (go e' none) ≡ with_restricted (find is_usable ents))
      → accepted (after r none ent go) ≡ with_restricted (find is_usable (ent ∷ ents))
  first-after h e ent ents go (pass e') (u, _, _) ih = rw u (ih e')
  first-after h e ent ents go (hold e') (u, n, t, _) ih = cc
  first-after h e ent ents go accept (u, _) ih = rw u

  pub accepted-loop_first :
      is_required mode ≡ false
      → (ents : List (Entry ssh.PublicKey)) (e : ConstraintError)
      → accepted (loop e none ents) ≡ with_restricted (find is_usable ents)
  unfolding match_loop
  accepted-loop_first h [] e = ground arith
  accepted-loop_first h (ent ∷ ents) e =
      first-after h e ent ents _ (round_of e ent) (round-Ends e ent)
        (λ e'. accepted-loop_first h ents e')

  abbrev pub is_restricted_usable : Entry ssh.PublicKey → Bool
  is_restricted_usable ent = restricted ent && is_usable ent

  abbrev pub is_fallback : Entry ssh.PublicKey → Bool
  is_fallback ent = not (restricted ent) && is_usable ent

  -- The entry to prefer, the fallback, or the next entry to fall back on.
  abbrev pub preferred :
      Option (Entry ssh.PublicKey)
      → List (Entry ssh.PublicKey)
      → Option (Entry ssh.PublicKey × Bool)
  preferred fallback ents =
      or_else (marked true (find is_restricted_usable ents))
        (or_else (marked false fallback) (marked false (find is_fallback ents)))

  required-after :
      is_required mode ≡ true
      → (e : ConstraintError) (ent : Entry ssh.PublicKey) (ents : List (Entry ssh.PublicKey))
        (go : Rest) (fallback : Option (Entry ssh.PublicKey)) (r : Round)
      → Ends e ent r
      → ((e' : ConstraintError) (fb : Option (Entry ssh.PublicKey))
          → accepted (go e' fb) ≡ preferred fb ents)
      → accepted (after r fallback ent go) ≡ preferred fallback (ent ∷ ents)
  required-after h e ent ents go fallback (pass e') (u, _, _) ih =
      rw (ih e' fallback) (ground (arith, u))
  required-after h e ent ents go none (hold e') (u, n, t, _) ih =
      rw (ih e' (some ent)) (ground arith)
  required-after h e ent ents go (some old) (hold e') (u, n, t, _) ih =
      rw (ih e' (some old)) (ground arith)
  required-after h e ent ents go fallback accept (u, n) ih = ground arith

  pub accepted-loop_required :
      is_required mode ≡ true
      → (ents : List (Entry ssh.PublicKey)) (e : ConstraintError)
        (fallback : Option (Entry ssh.PublicKey))
      → accepted (loop e fallback ents) ≡ preferred fallback ents
  unfolding match_loop
  accepted-loop_required h [] e none = ground arith
  accepted-loop_required h [] e (some old) = ground arith
  accepted-loop_required h (ent ∷ ents) e fallback =
      required-after h e ent ents _ fallback (round_of e ent) (round-Ends e ent)
        (λ e' fb. accepted-loop_required h ents e' fb)

  abbrev pub is_nothing : Found ssh.PublicKey → Bool
  is_nothing nothing = true
  is_nothing (entry ent r) = false
  is_nothing (rejected e) = false

  abbrev pub unmatched :
      ConstraintError → Option (Entry ssh.PublicKey) → List (Entry ssh.PublicKey) → Bool
  unmatched e fallback ents = is_none fallback && (is_nil e.messages && not (any candidate ents))

  nothing-after :
      (e : ConstraintError) (ent : Entry ssh.PublicKey) (ents : List (Entry ssh.PublicKey))
      (go : Rest) (fallback : Option (Entry ssh.PublicKey)) (r : Round)
      → Ends e ent r
      → ((e' : ConstraintError) (fb : Option (Entry ssh.PublicKey))
          → is_nothing (go e' fb) ≡ unmatched e' fb ents)
      → is_nothing (after r fallback ent go) ≡ unmatched e fallback (ent ∷ ents)
  nothing-after e ent ents go fallback (pass e') (u, m, _) ih =
      rw (ih e' fallback, m) (ground arith)
  nothing-after e ent ents go none (hold e') (u, n, t, _) ih = rw (ih e' (some ent)) (ground arith)
  nothing-after e ent ents go (some old) (hold e') (u, n, t, _) ih =
      rw (ih e' (some old)) (ground arith)
  nothing-after e ent ents go fallback accept (u, n) ih = ground arith

  pub nothing-loop :
      (ents : List (Entry ssh.PublicKey)) (e : ConstraintError)
      (fallback : Option (Entry ssh.PublicKey))
      → is_nothing (loop e fallback ents) ≡ unmatched e fallback ents
  unfolding match_loop
  nothing-loop [] e none = ground arith
  nothing-loop [] e (some old) = ground arith
  nothing-loop (ent ∷ ents) e fallback =
      nothing-after e ent ents _ fallback (round_of e ent) (round-Ends e ent)
        (λ e' fb. nothing-loop ents e' fb)

  -- What the counters of an error hold after the loop.
  abbrev pub Counted : List (Entry ssh.PublicKey) → ConstraintError → Found ssh.PublicKey → Type 0
  Counted ents e (rejected r) =
      (r.candidates ≡ e.candidates + count candidate ents)
      × (r.namespace_matches ≡ e.namespace_matches + count is_match ents)
      × (r.namespace_mismatches ≡ e.namespace_mismatches + count is_mismatch ents)
  Counted ents e (entry ent r) = Unit
  Counted ents e nothing = Unit

  Counted-cons :
      (e e' : ConstraintError) (ent : Entry ssh.PublicKey) (ents : List (Entry ssh.PublicKey))
      (r : Found ssh.PublicKey)
      → Counts e ent e'
      → Counted ents e' r
      → Counted (ent ∷ ents) e r
  Counted-cons e e' ent ents (rejected r) c h = omega arith
  Counted-cons e e' ent ents (entry x b) c h = tt
  Counted-cons e e' ent ents nothing c h = tt

  after-Counted :
      (e : ConstraintError) (ent : Entry ssh.PublicKey) (ents : List (Entry ssh.PublicKey))
      (go : Rest) (fallback : Option (Entry ssh.PublicKey)) (r : Round)
      → Ends e ent r
      → ((e' : ConstraintError) (fb : Option (Entry ssh.PublicKey)) → Counted ents e' (go e' fb))
      → Counted (ent ∷ ents) e (after r fallback ent go)
  after-Counted e ent ents go fallback (pass e') (_, _, c) ih =
      Counted-cons e e' ent ents _ c (ih e' fallback)
  after-Counted e ent ents go fallback (hold e') (_, _, _, c) ih =
      Counted-cons e e' ent ents _ c (ih e' (or_fallback ssh pk principal ns ts mode fallback ent))
  after-Counted e ent ents go fallback accept _ ih = tt

  pub loop-Counted :
      (ents : List (Entry ssh.PublicKey)) (e : ConstraintError)
      (fallback : Option (Entry ssh.PublicKey))
      → Counted ents e (loop e fallback ents)
  unfolding match_loop
  loop-Counted [] e none = ground arith
  loop-Counted [] e (some old) = tt
  loop-Counted (ent ∷ ents) e fallback =
      after-Counted e ent ents _ fallback (round_of e ent) (round-Ends e ent)
        (λ e' fb. loop-Counted ents e' fb)

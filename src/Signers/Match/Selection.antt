-- ===== src/Signers/Match/Selection.antt =====
-- What `matchEntry` returns, by the entries of the file.
use ssh_sign.Prelude.{
  ◌≤◌, Bool, true, false, not, ◌||◌, List, [], ◌∷◌, none, some, ◌≡◌, refl, ◌∙◌, ◌↔◌, arith,
  if◌then◌else◌, ltb, ◌==◌, any, all, find, count,
}
use ssh_sign.Text.Bytes.{Bytes}
use ssh_sign.Ssh.{Ssh}
use ssh_sign.Signers.Timestamp.{Time}
use ssh_sign.Signers.Line.{Entry}
use ssh_sign.Signers.File.{File}
use ssh_sign.Signers.Match.{
  Mode, is_required, ConstraintError, no_complaints, Found, rejected, nothing, entry,
  match_entry_in, namespace_constraint_result, is_candidate,
}
use ssh_sign.Signers.Match.Usable.{
  accepted, or_else, marked, is_usable, is_match, is_mismatch, with_restricted,
  is_restricted_usable, is_fallback, accepted-loop_first, accepted-loop_required, is_nothing,
  nothing-loop, loop-Counted,
}

count-pos {ℓ} : {A : Type ℓ} (f : A → Bool) (xs : List A) → ltb 0 (count f xs) ≡ any f xs
count-pos f [] = ground arith
count-pos f (x ∷ xs) = ground (arith, count-pos f xs)

-- `g` holds only where `f` does, and at every place where `f` does if it holds as often.
count-le {ℓ} :
    {A : Type ℓ} (f g : A → Bool) (xs : List A)
    → ((x : A) → g x ≡ true → f x ≡ true)
    → count g xs ≤ count f xs
count-le f g [] h = omega arith
count-le f g (x ∷ xs) h = ground (arith, h x, count-le f g xs h)

count-eq_all {ℓ} :
    {A : Type ℓ} (f g : A → Bool) (xs : List A)
    → ((x : A) → g x ≡ true → f x ≡ true)
    → (count g xs == count f xs) ≡ all (λ x. not (f x) || g x) xs
count-eq_all f g [] h = ground arith
count-eq_all f g (x ∷ xs) h = ground (arith, h x, count-le f g xs h, count-eq_all f g xs h)

module _ (ssh : Ssh) (pk : ssh.PublicKey) (principal ns : Bytes) (ts : Time) (mode : Mode) where
  abbrev matched : File ssh.PublicKey → Found ssh.PublicKey
  matched = match_entry_in ssh pk principal ns ts mode

  abbrev pub usable : Entry ssh.PublicKey → Bool
  usable = is_usable ssh pk principal ns ts mode

  abbrev candidates : File ssh.PublicKey → Bool
  candidates f = any (is_candidate ssh pk principal ns ts mode) f.entries

  -- Where the namespace is checked or ignored, the match accepts the first usable entry of the
  -- file, with whether it restricts namespaces, and none exactly if there is no usable entry.
  pub match_entry_first :
      (f : File ssh.PublicKey)
      → is_required mode ≡ false
      → accepted (matched f) ≡ with_restricted ssh pk principal ns ts mode (find usable f.entries)
  unfolding match_entry_in
  match_entry_first f h = accepted-loop_first ssh pk principal ns ts mode h f.entries no_complaints

  -- Where a restriction is preferred, the result is the first usable entry that restricts
  -- namespaces, anywhere in the file, and the first usable entry without a restriction if there
  -- is none.
  pub match_entry_required :
      (f : File ssh.PublicKey)
      → is_required mode ≡ true
      → accepted (matched f)
        ≡ or_else
            (marked true (find (is_restricted_usable ssh pk principal ns ts mode) f.entries))
            (marked false (find (is_fallback ssh pk principal ns ts mode) f.entries))
  unfolding match_entry_in
  match_entry_required f h =
      accepted-loop_required ssh pk principal ns ts mode h f.entries no_complaints none

  -- Nothing is found, with no error either, exactly if no entry fits the principal and the key.
  pub match_entry-eq-nothing_iff :
      (f : File ssh.PublicKey) → (matched f ≡ nothing) ↔ (candidates f ≡ false)
  unfolding match_entry_in
  match_entry-eq-nothing_iff f =
      let e = nothing-loop ssh pk principal ns ts mode f.entries no_complaints none in
      (λ h. ground (arith, rw h at e), λ h. is_nothing-eq _ (e ∙ rw h))
    where
      is_nothing-eq :
          (r : Found ssh.PublicKey) → is_nothing ssh pk principal ns ts mode r ≡ true → r ≡ nothing
      is_nothing-eq nothing h = refl
      is_nothing-eq (entry ent b) h = cc
      is_nothing-eq (rejected e) h = cc

  -- What the error of a failed match says of the namespace: it matched if some candidate's
  -- restriction permits it, it failed if every candidate's restriction refuses it, and nothing is
  -- said otherwise.
  pub constraint_result-rejected :
      (f : File ssh.PublicKey) (e : ConstraintError)
      → matched f ≡ rejected e
      → namespace_constraint_result (some e) ≡ (
          if any (is_match ssh pk principal ns ts mode) f.entries
          then (true, true)
          else if all
              (λ ent.
                not (is_candidate ssh pk principal ns ts mode ent)
                || is_mismatch ssh pk principal ns ts mode ent)
              f.entries
          then (true, false)
          else (false, false))
  unfolding match_entry_in namespace_constraint_result
  constraint_result-rejected f e h =
      let (c, m, x) =
        rw h at (loop-Counted ssh pk principal ns ts mode f.entries no_complaints none) in
      let some_candidate =
        rw h at (nothing-loop ssh pk principal ns ts mode f.entries no_complaints none) in
      ground (
        arith,
        some_candidate,
        c,
        m,
        x,
        count-pos (is_candidate ssh pk principal ns ts mode) f.entries,
        count-pos (is_match ssh pk principal ns ts mode) f.entries,
        count-eq_all (is_candidate ssh pk principal ns ts mode)
            (is_mismatch ssh pk principal ns ts mode) f.entries (λ ent t. ground arith),
      )

-- ===== src/Signers/Pattern/Correct.antt =====
-- The matcher's loop against the meaning of patterns.
use ssh_sign.Prelude.{
  ℕ, zero, suc, ◌+◌, ◌*◌, ◌≤◌, ◌<◌, Bool, true, false, ◌||◌, [], ◌∷◌, Option, none, some, ◌≡◌, refl,
  sym, ap, ◌∙◌, inl, inr, arith, ◌==◌, length, Bool-cases, Bool-eq_of_iff,
}
use ssh_sign.Text.Bytes.{Bytes}
use ssh_sign.Signers.Pattern.{
  Back, retry, only_stars, match_loop, match_fuel, answer, wildcard_match,
}
use ssh_sign.Signers.Pattern.Glob.{some_suffix, glob, some_suffix-star, some_suffix_drop}

only_stars-glob : (p : Bytes) → only_stars p ≡ glob p []
unfolding only_stars glob
only_stars-glob [] = refl
only_stars-glob (q ∷ p) = ground (arith, only_stars-glob p)

suffix_here : (f : Bytes → Bool) (v : Bytes) → f v ≡ true → some_suffix f v ≡ true
suffix_here f [] h = h
suffix_here f (c ∷ v) h = rw h

-- `g` is the answer sought, and every pattern in play is shorter than `k`.
module _ (g : Bool) (k : ℕ) where
  -- The question is whether the rest of the pattern after the star matches some suffix of what
  -- stands behind the mark, and the part already consumed shifts that question along.
  abbrev Saved : ℕ → Bytes → Bytes → Back → Type 0
  Saved m p v none = g ≡ true → glob p v ≡ true
  Saved m p v (some (after, mark)) =
      (g ≡ some_suffix (glob after) mark)
      × (glob after mark ≡ true → glob p v ≡ true)
      × (length v ≤ length mark)
      × (length mark ≤ m)
      × (length after < k)

  record Inv (f m : ℕ) (p v : Bytes) (back : Back) : Type 0 where
    sound : glob p v ≡ true → g ≡ true
    complete : g ≡ true → some_suffix (glob p) v ≡ true
    saved : Saved m p v back
    value_bound : length v ≤ m
    pattern_bound : length p < k
    fuel : m * k + length p < f

  -- At the end of the value the remaining pattern decides.
  Inv-end : (f m : ℕ) (p : Bytes) (back : Back) → Inv f m p [] back → only_stars p ≡ g
  Inv-end f m p back i = only_stars-glob p ∙ Bool-eq_of_iff (glob p []) g i.sound i.complete

  Inv-start :
      (f m : ℕ) (p v : Bytes)
      → g ≡ some_suffix (glob p) v
      → (glob p v ≡ true → g ≡ true)
      → length v ≤ m
      → length p < k
      → m * k + length p < f
      → Inv f m p v (some (p, v))
  Inv-start f m p v e s hv hp hf = record {
    sound = s;
    complete = λ h. sym e ∙ h;
    saved = (e, λ h. h, omega arith, hv, hp);
    value_bound = hv;
    pattern_bound = hp;
    fuel = hf;
  }

  Inv-star :
      (f m q c : ℕ) (p v : Bytes) (back : Back)
      → (q == b'*') ≡ true
      → Inv (suc f) m (q ∷ p) (c ∷ v) back
      → Inv f m p (c ∷ v) (some (p, c ∷ v))
  unfolding glob
  Inv-star f m q c p v back h i =
      Inv-start f m p (c ∷ v)
        (Bool-eq_of_iff g (some_suffix (glob p) (c ∷ v))
          (λ t. sym (some_suffix-star q p (c ∷ v) h) ∙ i.complete t) (λ t. i.sound (rw h t)))
        (λ t. i.sound (rw h (ground arith))) i.value_bound (omega arith) (omega arith)

  Saved-byte :
      (m q c : ℕ) (p v : Bytes) (back : Back)
      → (q == b'*') ≡ false
      → Saved m (q ∷ p) (c ∷ v) back
      → Saved m p v back
  unfolding glob
  Saved-byte m q c p v none h s = ground (arith, s)
  Saved-byte m q c p v (some (after, mark)) h (e, keep, shorter, hm, hp) =
      (e, λ t. ground (arith, keep t), omega arith, hm, hp)

  Inv-byte :
      (f m q c : ℕ) (p v : Bytes) (back : Back)
      → (q == b'*') ≡ false
      → (q == b'?' || q == c) ≡ true
      → Inv (suc f) m (q ∷ p) (c ∷ v) back
      → Inv f m p v back
  unfolding glob
  Inv-byte f m q c p v back h e i = record {
    sound = λ t. i.sound (ground arith);
    complete = λ t. some_suffix_drop q c p v h (i.complete t);
    saved = Saved-byte m q c p v back h i.saved;
    value_bound = omega arith;
    pattern_bound = omega arith;
    fuel = omega arith;
  }

  -- After a mismatch the last star has to swallow a byte, which lowers `m`.
  retry_finds :
      (f m c : ℕ) (p v : Bytes) (back : Back) (next : Bytes → Bytes → Back → Option Bool)
      → ((m' : ℕ) (p' v' : Bytes) (b : Back) → Inv f m' p' v' b → next p' v' b ≡ some g)
      → Inv (suc f) m p (c ∷ v) back
      → glob p (c ∷ v) ≡ false
      → retry back next ≡ some g
  unfolding retry
  retry_finds f m c p v none next ih i no_match = ground (arith, i.saved)
  retry_finds f m c p v (some (after, [])) next ih i no_match = absurd (omega arith)
  retry_finds f zero c p v (some (after, x ∷ rest)) next ih i no_match = absurd (omega arith)
  retry_finds f (suc m) c p v (some (after, x ∷ rest)) next ih i no_match =
      let (e, keep, _, _, _) = i.saved in
      let passed : g ≡ some_suffix (glob after) rest = ground (arith, keep) in
      ih m after rest (some (after, rest)) (
        Inv-start f m after rest passed (λ t. passed ∙ suffix_here (glob after) rest t)
          (omega arith) (omega arith) (omega arith))

  loop_finds :
      (f m : ℕ) (p v : Bytes) (back : Back) → Inv f m p v back → match_loop f p v back ≡ some g
  unfolding match_loop
  loop_finds zero m p v back i = absurd (omega arith)
  loop_finds (suc f) m p [] back i = ap some (Inv-end (suc f) m p back i)
  loop_finds (suc f) m [] (c ∷ v) back i =
      retry_finds f m c [] v back (match_loop f) (loop_finds f) i (unfold glob in refl)
  loop_finds (suc f) m (q ∷ p) (c ∷ v) back i = elim (Bool-cases (q == b'*')) [
    | inl star ↦ rw star (loop_finds f m p (c ∷ v) _ (Inv-star f m q c p v back star i))
    | inr plain ↦ elim (Bool-cases (q == b'?' || q == c)) [
      | inl fits ↦
          rw (plain, fits) (loop_finds f m p v back (Inv-byte f m q c p v back plain fits i))
      | inr differs ↦
          rw (plain, differs)
            (retry_finds f m c (q ∷ p) v back (match_loop f) (loop_finds f) i
              (unfold glob in rw (plain, differs)))
    ]
  ]

-- The fuel of (n + 1) * (m + 1) rounds is enough: on every pattern and value the loop stops, with
-- the answer of `glob`.
pub match_loop-eq-glob : (p v : Bytes) → match_loop (match_fuel p v) p v none ≡ some (glob p v)
match_loop-eq-glob p v =
    loop_finds (glob p v) (length p + 1) (match_fuel p v) (length v) p v none (record {
      sound = λ h. h;
      complete = λ h. suffix_here (glob p) v h;
      saved = λ h. h;
      value_bound = omega arith;
      pattern_bound = omega arith;
      fuel = omega arith;
    })

-- The matcher with its single backtrack point accepts exactly what the pattern means by `glob`,
-- where `*` stands for any run of bytes and `?` for any byte.
pub wildcard_match-eq-glob : (p v : Bytes) → wildcard_match p v ≡ glob p v
unfolding wildcard_match
wildcard_match-eq-glob p v = ap answer (match_loop-eq-glob p v)

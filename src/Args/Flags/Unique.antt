-- ===== src/Args/Flags/Unique.antt =====
-- Registered flags have names of their own, and each is found by its name.
use ssh_sign.Prelude.{
  Bool, true, false, ◌||◌, List, [], ◌∷◌, ◌++◌, some, ◌≡◌, ◌≢◌, refl, subst, arith, Bool-cases, inl,
  inr, is_nil, any, find,
}
use ssh_sign.Text.Bytes.{Bytes, bytes_eq_iff, bytes_eq_refl}
use ssh_sign.Args.Flags.{
  Flag, FlagSet, has_long, has_short, bad_name, bad_short, clashes, lookup, lookup_short, add,
}

-- No two flags share a long name, or a short one.
abbrev pub AreDistinct : List Flag → Type 0
AreDistinct [] = Unit
AreDistinct (f ∷ fs) = (any (λ g. clashes g f) fs ≡ false) × AreDistinct fs

any-append : (t : Flag → Bool) (xs ys : List Flag) → any t (xs ++ ys) ≡ (any t xs || any t ys)
any-append t [] ys = refl
any-append t (x ∷ xs) ys = ground (arith, any-append t xs ys)

AreDistinct-snoc :
    (f : Flag) (fs : List Flag)
    → any (clashes f) fs ≡ false
    → AreDistinct fs
    → AreDistinct (fs ++ f ∷ [])
AreDistinct-snoc f [] h w = (refl, tt)
AreDistinct-snoc f (g ∷ gs) h w = (
  ground (arith, any-append (λ x. clashes x g) gs (f ∷ [])),
  AreDistinct-snoc f gs (ground arith) w.1,
)

-- The test of a flag's name passes nothing before the flag itself.
find-snoc :
    (t : Flag → Bool) (f : Flag) (fs : List Flag)
    → any t fs ≡ false
    → t f ≡ true
    → find t (fs ++ f ∷ []) ≡ some f
find-snoc t f [] h e = ground arith
find-snoc t f (g ∷ gs) h e = ground (arith, find-snoc t f gs)

find-snoc_other :
    (t : Flag → Bool) (f : Flag) (fs : List Flag) → t f ≡ false → find t (fs ++ f ∷ []) ≡ find t fs
find-snoc_other t f [] e = ground arith
find-snoc_other t f (g ∷ gs) e = ground (arith, find-snoc_other t f gs e)

any_weaken :
    (t u : Flag → Bool) (fs : List Flag)
    → ((g : Flag) → u g ≡ false → t g ≡ false)
    → any u fs ≡ false
    → any t fs ≡ false
any_weaken t u [] w h = refl
any_weaken t u (g ∷ gs) w h = ground (arith, w g, any_weaken t u gs w)

-- What `add` makes of a set of flags.
pub record IsAdded (f : Flag) (s s' : FlagSet) : Type 0 where
  pub distinct : AreDistinct s.flags → AreDistinct s'.flags
  pub found : lookup f.long s'.flags ≡ some f
  pub found_short : is_nil f.short ≡ false → lookup_short f.short s'.flags ≡ some f
  pub others : (name : Bytes) → f.long ≢ name → lookup name s'.flags ≡ lookup name s.flags

-- A flag that is added leaves distinct names distinct, is found by its long name and by its short
-- one if it has one, and changes the lookup of no other long name.
pub add-IsAdded : (f : Flag) (s s' : FlagSet) → add f s ≡ some s' → IsAdded f s s'
unfolding add lookup lookup_short
add-IsAdded f s s' h = elim (Bool-cases (bad_name f || bad_short f || any (clashes f) s.flags)) [
  | inl e ↦ cc (rw e at h)
  | inr n ↦
      let same : s.flags ++ f ∷ [] ≡ s'.flags = cc (rw n at h) in
      let apart : any (clashes f) s.flags ≡ false = ground arith in
      record {
        distinct = λ w. subst AreDistinct same (AreDistinct-snoc f s.flags apart w);
        found = rw (← same) (
            find-snoc (has_long f.long) f s.flags
              (any_weaken (has_long f.long) (clashes f) s.flags (λ g e. ground arith) apart)
              (bytes_eq_refl f.long));
        found_short = λ e. rw (← same) (
            find-snoc (has_short f.short) f s.flags
              (any_weaken (has_short f.short) (clashes f) s.flags (λ g k. ground arith) apart)
              (bytes_eq_refl f.short));
        others = λ name d.
            rw (← same) (
              find-snoc_other (has_long name) f s.flags (ground (arith, bytes_eq_iff f.long name)));
      }
]

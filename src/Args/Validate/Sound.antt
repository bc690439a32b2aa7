-- ===== src/Args/Validate/Sound.antt =====
-- What `validate` accepts.
use ssh_sign.Prelude.{
  ℕ, ◌+◌, ◌≤◌, Bool, true, not, List, [], ◌∷◌, Option, none, some, ◌≡◌, ◌↔◌, refl, sym, ◌∙◌, arith,
  all, count, ok, >>=-eq-ok,
}
use ssh_sign.Text.Bytes.{Bytes}
use ssh_sign.Args.Flags.{Flag, FlagSet}
use ssh_sign.Args.Parse.{ArgError, missing_required, empty_value}
use ssh_sign.Args.Validate.{
  is_changed, is_empty_given, select, check_group, check_groups, none_of, validate,
}

-- The names, in order, that pass a test: none is left exactly if all fail it.
select-eq-nil :
    (f : Bytes → Bool) (xs : List Bytes) → (select f xs ≡ []) ↔ (all (λ x. not (f x)) xs ≡ true)
unfolding select
select-eq-nil f [] = ground arith
select-eq-nil f (x ∷ xs) = ground (arith, select-eq-nil f xs)

none_of-eq-ok : (e : List Bytes → ArgError) (xs : List Bytes) → (none_of e xs ≡ ok tt) ↔ (xs ≡ [])
none_of-eq-ok e [] = (λ h. refl, λ h. refl)
none_of-eq-ok e (x ∷ xs) = (λ h. cc, λ h. cc)

-- How many flags of a group were found before, at most one.
abbrev found : Option Bytes → ℕ
found none = 0
found (some name) = 1

-- A group passes exactly if at most one of its flags was given.
check_group_iff :
    (fs : List Flag) (given : Option Bytes) (names : List Bytes)
    → (check_group fs given names ≡ ok tt) ↔ (found given + count (is_changed fs) names ≤ 1)
unfolding check_group
check_group_iff fs none [] = (λ h. omega arith, λ h. refl)
check_group_iff fs (some name) [] = (λ h. omega arith, λ h. refl)
check_group_iff fs none (name ∷ names) =
    ground (arith, check_group_iff fs none names, check_group_iff fs (some name) names)
check_group_iff fs (some first) (name ∷ names) =
    ground (arith, check_group_iff fs (some first) names)

abbrev pub AtMostOne : List Flag → List (List Bytes) → Type 0
AtMostOne fs [] = Unit
AtMostOne fs (names ∷ groups) = (count (is_changed fs) names ≤ 1) × AtMostOne fs groups

check_groups_iff :
    (fs : List Flag) (groups : List (List Bytes))
    → (check_groups fs groups ≡ ok tt) ↔ AtMostOne fs groups
unfolding check_groups
check_groups_iff fs [] = (λ h. tt, λ h. refl)
check_groups_iff fs (names ∷ groups) = (
  λ h.
      let (_, e, h1) = >>=-eq-ok (check_group fs none names) _ h in
      (omega (arith, (check_group_iff fs none names).0 e), (check_groups_iff fs groups).0 h1),
  λ (l, w).
      rw ((check_group_iff fs none names).1 (omega (arith, l))) ((check_groups_iff fs groups).1 w),
)

-- Every required flag was given, at most one of each group was, and none that may not be empty
-- was given without a value.
pub record IsComplete (s : FlagSet) (fs : List Flag) : Type 0 where
  pub required_given : all (is_changed fs) s.required ≡ true
  pub at_most_one : AtMostOne fs s.exclusive
  pub none_empty : all (λ name. not (is_empty_given fs name)) s.deny_empty ≡ true

all-not-not : (f : Bytes → Bool) (xs : List Bytes) → all (λ x. not (not (f x))) xs ≡ all f xs
all-not-not f [] = refl
all-not-not f (x ∷ xs) = ground (arith, all-not-not f xs)

-- The flags pass validation exactly if every required flag was given, at most one flag of each
-- exclusive group was, and no flag that may not be empty was given an empty value.
pub validate_iff : (s : FlagSet) (fs : List Flag) → (validate s fs ≡ ok tt) ↔ IsComplete s fs
unfolding validate
validate_iff s fs =
    let missing = select (λ name. not (is_changed fs name)) s.required in
    let blank = select (is_empty_given fs) s.deny_empty in
    (
      λ h.
          let (_, r, h1) = >>=-eq-ok (none_of missing_required missing) _ h in
          let (_, g, h2) = >>=-eq-ok (check_groups fs s.exclusive) _ h1 in
          record {
            required_given =
                sym (all-not-not (is_changed fs) s.required)
                ∙ (select-eq-nil (λ name. not (is_changed fs name)) s.required).0
                    ((none_of-eq-ok missing_required missing).0 r);
            at_most_one = (check_groups_iff fs s.exclusive).0 g;
            none_empty =
                (select-eq-nil (is_empty_given fs) s.deny_empty).0
                  ((none_of-eq-ok empty_value blank).0 h2);
          },
      λ w.
          let r : missing ≡ [] =
            (select-eq-nil (λ name. not (is_changed fs name)) s.required).1
              (all-not-not (is_changed fs) s.required ∙ w.required_given) in
          let g = (check_groups_iff fs s.exclusive).1 w.at_most_one in
          let b : blank ≡ [] = (select-eq-nil (is_empty_given fs) s.deny_empty).1 w.none_empty in
          rw (r, g, b),
    )

-- ===== src/Args/Validate.antt =====
-- internal/args/args.go: `validate`.
pub mod Sound
use ssh_sign.Prelude.{
  ℕ, Bool, true, false, not, ◌&&◌, List, [], ◌∷◌, Option, none, some, if◌then◌else◌, is_nil, Result,
  ok, err, guard, ◌>>=◌, ◌>>◌,
}
use ssh_sign.Text.Bytes.{Bytes}
use ssh_sign.Args.Flags.{Flag, FlagSet, lookup}
use ssh_sign.Args.Parse.{ArgError, missing_required, exclusive_flags, empty_value}

-- The flags named here are registered, so that the lookup finds them.
unfoldable pub is_changed : List Flag → Bytes → Bool
unfolding lookup
is_changed fs name = elim (lookup name fs) [ none ↦ false | some f ↦ f.changed ]

unfoldable pub is_empty_given : List Flag → Bytes → Bool
unfolding lookup
is_empty_given fs name = elim (lookup name fs) [ none ↦ false | some f ↦ f.changed && is_nil f.str ]

-- The names that a loop collects in a slice.
unfoldable pub select : (Bytes → Bool) → List Bytes → List Bytes
select test [] = []
select test (x ∷ xs) = if test x then x ∷ select test xs else select test xs

-- A group: `given` is the flag of it that was found changed, if any.
unfoldable pub check_group : List Flag → Option Bytes → List Bytes → Result ArgError (Unit {0})
unfolding is_changed
check_group fs given [] = ok tt
check_group fs none (name ∷ names) =
    if is_changed fs name then check_group fs (some name) names else check_group fs none names
check_group fs (some first) (name ∷ names) =
    if is_changed fs name
    then err (exclusive_flags first name)
    else check_group fs (some first) names

unfoldable pub check_groups : List Flag → List (List Bytes) → Result ArgError (Unit {0})
unfolding check_group
check_groups fs [] = ok tt
check_groups fs (names ∷ groups) = do check_group fs none names; check_groups fs groups

abbrev pub none_of : (List Bytes → ArgError) → List Bytes → Result ArgError (Unit {0})
none_of e [] = ok tt
none_of e (x ∷ xs) = err (e (x ∷ xs))

unfoldable pub validate : FlagSet → List Flag → Result ArgError (Unit {0})
unfolding select check_groups is_empty_given
validate s fs = do
  none_of missing_required (select (λ name. not (is_changed fs name)) s.required)
  check_groups fs s.exclusive
  none_of empty_value (select (is_empty_given fs) s.deny_empty)

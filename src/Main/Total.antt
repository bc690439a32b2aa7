-- ===== src/Main/Total.antt =====
-- `main` never panics: every flag can be registered, and every command that is parsed is there.
use ssh_sign.Prelude.{
  Bool, true, not, List, [], ◌∷◌, some, any, find, ok, ◌≡◌, refl, arith, Bool-cases, Option-cases,
  inl, inr, Result-cases, >>=-eq-ok, guard-eq-ok,
}
use ssh_sign.Text.Bytes.{Bytes, codes, bytes_eq, has_prefix, bytes_eq_refl}
use ssh_sign.Text.Utf8.{glyphs}
use ssh_sign.Ssh.{Ssh}
use ssh_sign.Os.{History}
use ssh_sign.Args.Flags.{
  Flag, Command, FlagSet, lookup, add, add_string, add_bool, add_count, new_set, require,
  deny_empty, mutually_exclusive,
}
use ssh_sign.Args.Command.{run_command as run_parsed, parse_command, help}
use ssh_sign.Args.Parse.{parse_flags}
use ssh_sign.Args.Validate.{validate}
use ssh_sign.Cmd.Registered.{
  Subcommand, inspect, sign, verify, check, version, name_of, commands, flags_of, root_set,
  command_set,
}
use ssh_sign.Main.{World, Exit, exit_arguments, run_command, start_command, main}

abbrev names : FlagSet → Bytes → Bool
names s name = any (λ (c : Command). bytes_eq c.name name) s.commands

-- The sets of flags, which no registration panics on.
root_registered : (s : FlagSet) × (root_set ≡ some s)
unfolding root_set new_set add_bool add bytes_eq has_prefix glyphs
root_registered = (_, refl)

set_registered : (c : Subcommand) → (s : FlagSet) × (command_set c ≡ some s)
unfolding command_set flags_of new_set add_bool add_string add_count add bytes_eq has_prefix glyphs
    lookup require deny_empty mutually_exclusive
set_registered inspect = (_, refl)
set_registered sign = (_, refl)
set_registered verify = (_, refl)
set_registered check = (_, refl)
set_registered version = (_, refl)

any-find {ℓ} :
    {A : Type ℓ} (f g : A → Bool) (xs : List A) (x : A)
    → find f xs ≡ some x
    → g x ≡ true
    → any g xs ≡ true
any-find f g [] x h k = cc
any-find f g (y ∷ xs) x h k = elim (Bool-cases (f y)) [
  | inl t ↦ let same : y ≡ x = cc (rw t at h) in rw same (ground arith)
  | inr n ↦ let rest = any-find f g xs x (rw n at h) k in ground arith
]

find-any {ℓ} :
    {A : Type ℓ} (f : A → Bool) (xs : List A) → any f xs ≡ true → (x : A) × (find f xs ≡ some x)
find-any f [] h = cc
find-any f (x ∷ xs) h = elim (Bool-cases (f x)) [
  | inl t ↦ (x, rw t)
  | inr n ↦ let (y, e) = find-any f xs (rw n at h) in (y, rw n e)
]

parsed_name :
    (s : FlagSet) (fs : List Flag) (argv : List Bytes) (name : Bytes) (rest : List Bytes)
    → run_parsed s fs argv ≡ ok (name, rest)
    → names s name ≡ true
unfolding run_parsed
parsed_name s fs [] name rest h = cc
parsed_name s fs (arg ∷ argv) name rest h =
    elim (Option-cases (find (λ (c : Command). bytes_eq c.name arg) s.commands)) [
      | inl n ↦ cc (rw (n, run_parsed) at h)
      | inr (c, e) ↦
          let (u, _, k) =
            >>=-eq-ok (validate s fs) (λ _. ok (c.name, argv)) (rw (e, run_parsed) at h) in
          let same : c.name ≡ name = cc k in
          any-find (λ (d : Command). bytes_eq d.name arg) (λ d. bytes_eq d.name name) s.commands c e
            (rw same (bytes_eq_refl name))
    ]

parse_command-names :
    (s : FlagSet) (argv : List Bytes) (name : Bytes) (rest : List Bytes)
    → parse_command s argv ≡ ok (name, rest)
    → names s name ≡ true
unfolding parse_command
parse_command-names s [] name rest h = cc
parse_command-names s (arg ∷ argv) name rest h =
    let ((fs, left), p, k) = >>=-eq-ok (parse_flags s.flags (arg ∷ argv)) _ h in
    parsed_name s fs left name rest (guard-eq-ok (not (help fs)) _ (run_parsed s fs left) k).1

-- The commands that the set of `main` names are those of the table.
names-found :
    (name : Bytes)
    → names root_registered.0 name ≡ true
    → (c : Subcommand) × (find (λ c. bytes_eq (name_of c) name) commands ≡ some c)
unfolding root_registered
names-found name h = find-any (λ c. bytes_eq (name_of c) name) commands h

module _ (ssh : Ssh) (w : World ssh) where
  start_command-total :
      (name : Bytes) (argv : List Bytes)
      → names root_registered.0 name ≡ true
      → (r : Exit × History) × (start_command ssh w name argv ≡ some r)
  unfolding start_command
  start_command-total name argv h =
      let (c, e) = names-found name h in
      let (s, r) = set_registered c in (run_command ssh w c s argv, rw (e, r))

  -- Whatever the arguments are, the program ends with a status: it registers its flags without a
  -- panic and finds the command that it has parsed.
  pub main_total : (argv : List Bytes) → (r : Exit × History) × (main ssh w argv ≡ some r)
  unfolding main
  main_total argv = elim (Result-cases (parse_command root_registered.0 argv)) [
    | inl ((name, rest), p) ↦
        let (r, e) =
          start_command-total name rest (parse_command-names root_registered.0 argv name rest p) in
        (r, rw (root_registered.1, p, main) e)
    | inr (x, p) ↦ (
      (exit_arguments ssh w (codes "usage") root_registered.0 x, []),
      rw (root_registered.1, p, main),
    )
  ]

-- ===== src/Args/Command.antt =====
-- internal/args/args.go: `Parse` and `ParseCommand`.
use ssh_sign.Prelude.{
  Bool, false, not, List, [], ◌∷◌, none, some, is_nil, find, Result, ok, err, guard, ◌>>=◌, ◌>>◌,
}
use ssh_sign.Text.Bytes.{Bytes, codes, bytes_eq}
use ssh_sign.Args.Flags.{Flag, FlagSet, lookup, Command}
use ssh_sign.Args.Parse.{
  ArgError, help_requested, usage, no_positional, missing_command, invalid_command, parse_flags,
}
use ssh_sign.Args.Validate.{validate}

-- `s.help`, which the flag of that name sets
unfoldable pub help : List Flag → Bool
unfolding lookup
help fs = elim (lookup (codes "help") fs) [ none ↦ false | some f ↦ f.boolean ]

-- The flags with their values, or the error.
unfoldable pub parse : FlagSet → List Bytes → Result ArgError (List Flag)
unfolding parse_flags help validate
parse s argv = do
  (fs, rest) ← parse_flags s.flags argv
  guard (not (help fs)) help_requested
  guard (is_nil rest) no_positional
  validate s fs
  ok fs

-- The command named by the first positional argument, and the arguments behind it.
unfoldable pub run_command : FlagSet → List Flag → List Bytes → Result ArgError (Bytes × List Bytes)
unfolding validate
run_command s fs [] = err missing_command
run_command s fs (name ∷ rest) = elim (find (λ (c : Command). bytes_eq c.name name) s.commands) [
  | none ↦ err (invalid_command name)
  | some c ↦ do validate s fs; ok (c.name, rest)
]

unfoldable pub parse_command : FlagSet → List Bytes → Result ArgError (Bytes × List Bytes)
unfolding run_command parse_flags help
parse_command s [] = err usage
parse_command s (arg ∷ argv) = do
  (fs, rest) ← parse_flags s.flags (arg ∷ argv)
  guard (not (help fs)) help_requested
  run_command s fs rest

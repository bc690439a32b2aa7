-- ===== src/Args/Parse/Keeps.antt =====
-- What the parser leaves: the flags under their names, and the arguments behind them.
use ssh_sign.Prelude.{List, ◌++◌, ◌≡◌, map, ok, err}
use ssh_sign.Text.Bytes.{Bytes}
use ssh_sign.Args.Flags.{Flag}
use ssh_sign.Args.Parse.{Step}

-- Setting a flag keeps every flag's name.
abbrev pub long_names : List Flag → List Bytes
long_names = map (λ (f : Flag). f.long)

abbrev Keeps : List Flag → Step → Type 0
Keeps fs (ok (fs', consumed)) = long_names fs' ≡ long_names fs
Keeps fs (err e) = Unit

-- The flags keep their names, and what is left are the last of the arguments.
pub record IsParsed (fs fs' : List Flag) (argv rest : List Bytes) : Type 0 where
  pub same_names : long_names fs' ≡ long_names fs
  pub taken : List Bytes
  pub left : argv ≡ taken ++ rest

-- ===== src/Os.antt =====
-- The operating system under the program: what packages os, net and golang.org/x/term answer, and
-- the history of what was asked. An answer may depend on all that happened before it.
pub mod Orderly
pub mod Results
use ssh_sign.Prelude.{ℕ, Bool, List, [], ◌∷◌, Option, none, some, Result, ok, err, map_err}
use ssh_sign.Text.Bytes.{Bytes}
use ssh_sign.Text.Scan.{Reader}

-- An error without its path, as `helper.UnwrapPathError` leaves it. `not_exist` is what
-- `errors.Is(err, fs.ErrNotExist)` accepts.
pub data OsError : Type 0 where
  not_exist : OsError
  other : Bytes → OsError

-- `fs.FileInfo`; there is no owner if `info.Sys()` is no `*syscall.Stat_t`.
pub record FileInfo : Type 0 where
  pub mode : ℕ
  pub is_regular : Bool
  pub owner : Option ℕ

-- An `*os.File` with its content and what `f.Stat` answers.
pub record OpenFile : Type 0 where
  pub reader : Reader
  pub info : Result OsError FileInfo

-- What a command did: `worked` is the start of a flow, which reads its inputs, and `asked` that of
-- a conversation with the agent.
pub data Event : Type 0 where
  opened inspected listed connected : Bytes → Event
  restricted restrict_failed asked worked : Event

-- The last event comes first.
abbrev pub History : Type 0
History = List Event

pub record Os : Type 0 where
  -- `os.Getenv`, `os.UserHomeDir`, `os.Getuid` and `filepath.Join`
  pub getenv : Bytes → Bytes
  pub home : Result Bytes Bytes
  pub user : ℕ
  pub join : List Bytes → Bytes
  -- `os.Stdin`, and `term.IsTerminal` of it
  pub stdin : Reader
  pub stdin_is_terminal : Bool
  -- `os.Open`, `os.Stat`, the names that `os.ReadDir` lists, and `net.DialTimeout`
  pub open_file : History → Bytes → Result OsError OpenFile
  pub stat : History → Bytes → Result OsError FileInfo
  pub read_dir : History → Bytes → Result OsError (List Bytes)
  pub dial : History → Bytes → Result Bytes (Unit {0})
  -- The Landlock rules, whose own checks of the kernel's support are the package's.
  pub enforce : History → Result Bytes (Unit {0})

-- A step of a command: it may fail, and it adds to the history either way.
abbrev pub Action : Type 0 → Type 0 → Type 0
Action E A = History → Result E A × History

module _ {E A : Type 0} where
  abbrev pub pure : A → Action E A
  pure a h = (ok a, h)

  abbrev pub fail : E → Action E A
  fail e h = (err e, h)

  abbrev pub lift : Result E A → Action E A
  lift r h = (r, h)

module _ {E A B : Type 0} where
  abbrev pub continue : Result E A → (A → Action E B) → Action E B
  continue (ok a) next h = next a h
  continue (err e) next h = (err e, h)

  infixl 5 ◌>>=◌
  abbrev pub ◌>>=◌ : Action E A → (A → Action E B) → Action E B
  ◌>>=◌ m next h = let (r, h') = m h in continue r next h'

module _ {E B : Type 0} where
  infixl 5 ◌>>◌
  abbrev pub ◌>>◌ : Action E (Unit {0}) → Action E B → Action E B
  m >> k = m >>= λ _. k

abbrev pub enforced : Result Bytes (Unit {0}) → Event
enforced (ok _) = restricted
enforced (err e) = restrict_failed

-- The calls of the operating system. `open_path` and the like hand an error on as a value.
module _ (os : Os) {E : Type 0} where
  unfoldable pub open_path : Bytes → Action E (Result OsError OpenFile)
  open_path path h = (ok (os.open_file h path), opened path ∷ h)

  unfoldable pub stat_path : Bytes → Action E (Result OsError FileInfo)
  stat_path path h = (ok (os.stat h path), inspected path ∷ h)

  unfoldable pub list_dir : Bytes → Action E (Result OsError (List Bytes))
  list_dir path h = (ok (os.read_dir h path), listed path ∷ h)

  unfoldable pub dial_socket : Bytes → Action E (Result Bytes (Unit {0}))
  dial_socket path h = (ok (os.dial h path), connected path ∷ h)

  unfoldable pub enforce_rules : Action E (Result Bytes (Unit {0}))
  enforce_rules h = (ok (os.enforce h), enforced (os.enforce h) ∷ h)

-- The start of a flow, with its result.
module _ {E A : Type 0} where
  unfoldable pub work : A → Action E A
  work a h = (ok a, worked ∷ h)

  unfoldable pub ask : A → Action E A
  ask a h = (ok a, asked ∷ h)

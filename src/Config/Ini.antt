-- ===== src/Config/Ini.antt =====
-- internal/config/config.go: `Parse`, `ValidAliasName` and `checkAlias`.
pub mod Sound
use ssh_sign.Prelude.{
  ℕ, ◌+◌, ◌-◌, ◌^◌, ◌*◌, Bool, true, false, not, ◌&&◌, ◌||◌, List, [], ◌∷◌, ◌++◌, Option, none,
  some, ◌==◌, leb, if◌then◌else◌, is_nil, init, any, all, Result, ok, err, is_ok, guard, ◌>>=◌,
  ◌>>◌,
}
use ssh_sign.Text.Bytes.{Bytes, codes, bytes_eq, has_suffix, mem_byte, cut}
use ssh_sign.Text.Utf8.{runes, glyphs, trim_space}
use ssh_sign.Text.Scan.{Reader, ScanError, Scanned, scan_lines}
use ssh_sign.Ssh.{Ssh}
use ssh_sign.Sshsig.PublicKey.{KeyError, parse_public_key_line}

-- The aliases are a map from names to public key lines.
pub record Config : Type 0 where
  pub path : Bytes
  pub sign_key : Bytes
  pub aliases : List (Bytes × Bytes)

abbrev pub empty_config : Config
empty_config = record { path = []; sign_key = []; aliases = [] }

-- `cfg.Aliases[name]`, and the assignment to it
unfoldable pub alias : Bytes → List (Bytes × Bytes) → Option Bytes
unfolding bytes_eq
alias name [] = none
alias name ((k, v) ∷ rest) = if bytes_eq k name then some v else alias name rest

unfoldable pub set_alias : Bytes → Bytes → List (Bytes × Bytes) → List (Bytes × Bytes)
unfolding bytes_eq
set_alias name value [] = (name, value) ∷ []
set_alias name value ((k, v) ∷ rest) =
    if bytes_eq k name then (k, value) ∷ rest else (k, v) ∷ set_alias name value rest

abbrev within : ℕ → ℕ → ℕ → Bool
within lo hi r = leb lo r && leb r hi

abbrev pub is_alias_rune : Option ℕ → Bool
is_alias_rune none = false
is_alias_rune (some r) =
    within b'a' b'z' r || within b'A' b'Z' r || within b'0' b'9' r || mem_byte r (codes "._%+-@")

unfoldable pub valid_alias_name : Bytes → Bool
unfolding glyphs
valid_alias_name name = not (is_nil name) && all is_alias_rune (runes name)

pub data Problem : Type 0 where
  invalid_header not_an_option empty_value outside_section : Problem
  unknown_section unknown_option duplicate_option : Bytes → Problem
  invalid_alias_name alias_is_key : Problem
  bad_alias : KeyError → Problem

-- A problem with its line, or the scanner's error.
pub data ConfigError : Type 0 where
  at_line : ℕ → Problem → ConfigError
  scan_failed : ScanError → ConfigError

-- The variables of the loop of `Parse`.
pub record State : Type 0 where
  pub config : Config
  pub section : Bytes
  pub seen : List Bytes

abbrev pub start : State
start = record { config = empty_config; section = []; seen = [] }

-- `seen[option]`
abbrev pub is_seen : Bytes → List Bytes → Bool
is_seen option = any (bytes_eq option)

abbrev pub sign_section : Bytes
sign_section = codes "sign"

abbrev pub alias_section : Bytes
alias_section = codes "alias"

-- A line that begins with a bracket.
unfoldable pub header_line : State → Bytes → Result Problem State
unfolding has_suffix trim_space bytes_eq
header_line st body = do
  guard (has_suffix body (codes "]")) invalid_header
  let section = trim_space (init body)
  guard (bytes_eq section sign_section || bytes_eq section alias_section) (unknown_section section)
  ok (record st { section = section })

-- The name and the value around the first equals sign; without one there is no option.
abbrev pub name_value : Bytes → Result Problem (Bytes × Bytes)
name_value line = elim (cut b'=' line) [
  | none ↦ err not_an_option
  | some (name, value) ↦
      if is_nil (trim_space name) then err not_an_option else ok (trim_space name, trim_space value)
]

abbrev pub option_name : Bytes → Bytes → Bytes
option_name section name = section ++ b'.' ∷ name

-- `bufio.Scanner` holds 64 KiB with the line's delimiter.
abbrev pub max_line : ℕ
max_line = 64 * 2 ^ 10 - 1

module _ (ssh : Ssh) where
  unfoldable pub check_alias : Bytes → Bytes → Result Problem (Unit {0})
  check_alias name value =
      if not (valid_alias_name name)
      then err invalid_alias_name
      else if is_ok (parse_public_key_line ssh name)
      then err alias_is_key
      else elim (parse_public_key_line ssh value) [ ok pk ↦ ok tt | err e ↦ err (bad_alias e) ]

  -- What an option in order does to the configuration.
  unfoldable pub store : State → Bytes → Bytes → Result Problem State
  unfolding check_alias set_alias
  store st name value =
      let seen : State = record st { seen = option_name st.section name ∷ st.seen } in
      if bytes_eq st.section sign_section
      then ok (record seen { config = record st.config { sign_key = value } })
      else (do
        check_alias name value
        ok (record seen {
          config = record st.config { aliases = set_alias name value st.config.aliases };
        }))

  unfoldable pub option_line : State → Bytes → Result Problem State
  unfolding store
  option_line st line = do
    (name, value) ← name_value line
    guard (not (is_nil st.section)) outside_section
    guard (not (bytes_eq st.section sign_section && not (bytes_eq name (codes "key"))))
        (unknown_option (option_name st.section name))
    guard (not (is_nil value)) empty_value
    guard (not (is_seen (option_name st.section name) st.seen))
        (duplicate_option (option_name st.section name))
    store st name value

  -- One round of the loop, on a line without the white space around it.
  unfoldable pub trimmed_line : State → Bytes → Result Problem State
  unfolding header_line option_line
  trimmed_line st [] = ok st
  trimmed_line st (c ∷ body) =
      if c == b'#'
      then ok st
      else if c == b'['
      then header_line st body
      else option_line st (c ∷ body)

  unfoldable pub config_lines : State → ℕ → List Bytes → Result ConfigError State
  unfolding trimmed_line
  config_lines st n [] = ok st
  config_lines st n (line ∷ lines) = elim (trimmed_line st (trim_space line)) [
    | err p ↦ err (at_line n p)
    | ok st' ↦ config_lines st' (n + 1) lines
  ]

  unfoldable pub parse : Reader → Result ConfigError Config
  unfolding config_lines scan_lines
  parse r = do
    st ← config_lines start 1 (scan_lines max_line r).lines
    elim ((scan_lines max_line r).error) [ none ↦ ok st.config | some e ↦ err (scan_failed e) ]

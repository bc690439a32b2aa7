-- ===== src/Config/Ini/Sound.antt =====
-- The aliases that a parsed configuration holds.
use ssh_sign.Prelude.{
  ℕ, ◌+◌, true, false, not, ◌&&◌, ◌||◌, List, [], ◌∷◌, Option, none, some, ◌≡◌, refl, subst, ◌==◌,
  arith, is_nil, init, Bool-cases, inl, inr, Result, ok, err, is_ok, >>=-eq-ok, guard-eq-ok,
}
use ssh_sign.Text.Bytes.{Bytes, bytes_eq, bytes_eq_iff, has_suffix, codes}
use ssh_sign.Text.Utf8.{trim_space}
use ssh_sign.Text.Scan.{Reader, ScanError, scan_lines}
use ssh_sign.Ssh.{Ssh}
use ssh_sign.Sshsig.PublicKey.{parse_public_key_line}
use ssh_sign.Config.Ini.{
  Config, alias, set_alias, valid_alias_name, Problem, ConfigError, scan_failed, State, start,
  sign_section, alias_section, header_line, name_value, max_line, check_alias, store, option_line,
  trimmed_line, config_lines, parse, option_name, outside_section, unknown_option, unknown_section,
  empty_value, is_seen, duplicate_option, invalid_header,
}

module _ (ssh : Ssh) where
  -- The name is in order and is no key itself, and the line behind it is one.
  pub record IsAlias (name line : Bytes) : Type 0 where
    pub valid : valid_alias_name name ≡ true
    pub no_key : is_ok (parse_public_key_line ssh name) ≡ false
    pub key : is_ok (parse_public_key_line ssh line) ≡ true

  abbrev pub AreAliases : List (Bytes × Bytes) → Type 0
  AreAliases [] = Unit
  AreAliases ((name, line) ∷ rest) = IsAlias name line × AreAliases rest

  check_alias-IsAlias : (name line : Bytes) → check_alias ssh name line ≡ ok tt → IsAlias name line
  unfolding check_alias
  check_alias-IsAlias name line h = record {
    valid = ground arith;
    no_key = ground arith;
    key = ground arith;
  }

  set_alias-AreAliases :
      (name line : Bytes) (xs : List (Bytes × Bytes))
      → IsAlias name line
      → AreAliases xs
      → AreAliases (set_alias name line xs)
  unfolding set_alias
  set_alias-AreAliases name line [] w ws = (w, tt)
  set_alias-AreAliases name line ((k, v) ∷ rest) w ws = elim (Bool-cases (bytes_eq k name)) [
    | inl e ↦ rw (e, (bytes_eq_iff k name).0 e) (w, ws.1)
    | inr n ↦ rw n (ws.0, set_alias-AreAliases name line rest w ws.1)
  ]

  -- The line that a lookup returns is an alias's, under that name.
  alias-IsAlias :
      (name line : Bytes) (xs : List (Bytes × Bytes))
      → AreAliases xs
      → alias name xs ≡ some line
      → IsAlias name line
  unfolding alias
  alias-IsAlias name line [] ws h = cc
  alias-IsAlias name line ((k, v) ∷ rest) ws h = elim (Bool-cases (bytes_eq k name)) [
    | inl e ↦
        let same : v ≡ line = cc (rw e at h) in
        subst (λ x. IsAlias name x) same (subst (λ x. IsAlias x v) ((bytes_eq_iff k name).0 e) ws.0)
    | inr n ↦ alias-IsAlias name line rest ws.1 (rw n at h)
  ]

  abbrev Holds : State → Type 0
  Holds st = AreAliases st.config.aliases

  store-AreAliases :
      (st st' : State) (name value : Bytes)
      → Holds st
      → store ssh st name value ≡ ok st'
      → Holds st'
  unfolding store
  store-AreAliases st st' name value w h = elim (Bool-cases (bytes_eq st.section sign_section)) [
    | inl e ↦
        let same : st.config.aliases ≡ st'.config.aliases = cc (rw e at h) in
        subst AreAliases same w
    | inr n ↦
        let (_, c, h1) = >>=-eq-ok (check_alias ssh name value) _ (rw n at h) in
        let same : set_alias name value st.config.aliases ≡ st'.config.aliases = cc in
        subst AreAliases same
          (set_alias-AreAliases name value st.config.aliases (check_alias-IsAlias name value c) w)
  ]

  option_line-AreAliases :
      (st st' : State) (line : Bytes) → Holds st → option_line ssh st line ≡ ok st' → Holds st'
  unfolding option_line
  option_line-AreAliases st st' line w h =
      let ((name, value), _, h1) = >>=-eq-ok (name_value line) _ h in
      let key = option_name st.section name in
      let (_, h2) = guard-eq-ok (not (is_nil st.section)) outside_section _ h1 in
      let (_, h3) =
        guard-eq-ok (not (bytes_eq st.section sign_section && not (bytes_eq name (codes "key"))))
          (unknown_option key) _ h2 in
      let (_, h4) = guard-eq-ok (not (is_nil value)) empty_value _ h3 in
      let (_, h5) = guard-eq-ok (not (is_seen key st.seen)) (duplicate_option key) _ h4 in
      store-AreAliases st st' name value w h5

  header_line-AreAliases :
      (st st' : State) (body : Bytes) → Holds st → header_line st body ≡ ok st' → Holds st'
  unfolding header_line
  header_line-AreAliases st st' body w h =
      let (_, h1) = guard-eq-ok (has_suffix body (codes "]")) invalid_header _ h in
      let section = trim_space (init body) in
      let (_, h2) =
        guard-eq-ok (bytes_eq section sign_section || bytes_eq section alias_section)
          (unknown_section section) _ h1 in
      let same : st.config.aliases ≡ st'.config.aliases = cc in subst AreAliases same w

  trimmed_line-AreAliases :
      (st st' : State) (line : Bytes) → Holds st → trimmed_line ssh st line ≡ ok st' → Holds st'
  unfolding trimmed_line
  trimmed_line-AreAliases st st' [] w h =
      let same : st.config.aliases ≡ st'.config.aliases = cc in subst AreAliases same w
  trimmed_line-AreAliases st st' (c ∷ body) w h = elim (Bool-cases (c == b'#')) [
    | inl e ↦
        let same : st.config.aliases ≡ st'.config.aliases = cc (rw e at h) in
        subst AreAliases same w
    | inr n ↦ elim (Bool-cases (c == b'[')) [
      | inl e ↦ header_line-AreAliases st st' body w (rw (n, e) at h)
      | inr f ↦ option_line-AreAliases st st' (c ∷ body) w (rw (n, f) at h)
    ]
  ]

  config_lines-AreAliases :
      (st st' : State) (n : ℕ) (lines : List Bytes)
      → Holds st
      → config_lines ssh st n lines ≡ ok st'
      → Holds st'
  unfolding config_lines
  config_lines-AreAliases st st' n [] w h =
      let same : st.config.aliases ≡ st'.config.aliases = cc in subst AreAliases same w
  config_lines-AreAliases st st' n (line ∷ lines) w h =
      go (trimmed_line ssh st (trim_space line)) refl
        (λ next w' h'. config_lines-AreAliases next st' (n + 1) lines w' h')
    where
      go :
          (r : Result Problem State)
          → trimmed_line ssh st (trim_space line) ≡ r
          → ((next : State) → Holds next → config_lines ssh next (n + 1) lines ≡ ok st' → Holds st')
          → Holds st'
      go (err p) e rest = cc (rw (e, config_lines) at h)
      go (ok next) e rest =
          rest next (trimmed_line-AreAliases st next (trim_space line) w e)
            (rw (e, config_lines) at h)

  -- Every alias of a configuration that is parsed has a name in order that is no key, and a line
  -- that is one.
  pub parse-AreAliases : (r : Reader) (cfg : Config) → parse ssh r ≡ ok cfg → AreAliases cfg.aliases
  unfolding parse
  parse-AreAliases r cfg h =
      let s = scan_lines max_line r in
      let (st, e, h1) = >>=-eq-ok (config_lines ssh start 1 s.lines) _ h in
      let w = config_lines-AreAliases start st 1 s.lines tt e in go st w s.error h1
    where
      go :
          (st : State)
          → Holds st
          → (o : Option ScanError)
          → (elim o as (λ x. Result ConfigError Config) [
            | none ↦ ok st.config
            | some e ↦ err (scan_failed e)
          ])
            ≡ ok cfg
          → AreAliases cfg.aliases
      go st w none h = let same : st.config ≡ cfg = cc in subst (λ c. AreAliases c.aliases) same w
      go st w (some e) h = cc

  -- An alias that a parsed configuration resolves is in order: its name is no key, its line is.
  pub alias-parse :
      (r : Reader) (cfg : Config) (name line : Bytes)
      → parse ssh r ≡ ok cfg
      → alias name cfg.aliases ≡ some line
      → IsAlias name line
  alias-parse r cfg name line h = alias-IsAlias name line cfg.aliases (parse-AreAliases r cfg h)

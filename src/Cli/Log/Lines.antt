-- ===== src/Cli/Log/Lines.antt =====
-- A record of the debug log is one line.
use ssh_sign.Prelude.{
  ℕ, true, false, not, ◌&&◌, List, [], ◌∷◌, ◌++◌, some, any, is_nil, ◌≡◌, refl, arith, Bool-cases,
  inl, inr, ℤ,
}
use ssh_sign.Text.Bytes.{Bytes, codes}
use ssh_sign.Text.Utf8.{Glyph, glyphs, valid_string}
use ssh_sign.Cli.Format.{is_control_glyph, is_plain, escape_control}
use ssh_sign.Cli.Plain.{is_visible, AreVisible, all-append, is_plain-AreVisible}
use ssh_sign.Cli.Plain.Escaped.{escape_control-AreVisible}
use ssh_sign.Cli.Log.{
  Attr, Attrs, zero_attr, leaf, group, nil, cons, Handler, new_logger, needs_quoting, quote_value,
  add_group, append_attr, append_attrs, with_attrs, with_group, level_name, line_body, handle,
}

-- A glyph that needs no quotes is no control.
unquoted-plain : (gs : List Glyph) → any needs_quoting gs ≡ false → any is_control_glyph gs ≡ false
unquoted-plain [] h = refl
unquoted-plain (g ∷ gs) h = ground (arith, unquoted-plain gs)

unquoted-is_plain :
    (s : Bytes)
    → (not (is_nil s) && (valid_string s && not (any needs_quoting (glyphs s)))) ≡ true
    → is_plain s ≡ true
unfolding is_plain
unquoted-is_plain s t = ground (arith, unquoted-plain (glyphs s))

-- `strconv` quotes runes and strings without control characters.
module _ (quote : Bytes → Bytes) (quote_rune : ℕ → Bytes)
    (quoted : (s : Bytes) → AreVisible (quote s))
    (quoted_rune : (r : ℕ) → AreVisible (quote_rune r)) where
  quote_value-AreVisible : (s : Bytes) → AreVisible (quote_value quote s)
  unfolding quote_value
  quote_value-AreVisible s =
      elim (Bool-cases (not (is_nil s) && (valid_string s && not (any needs_quoting (glyphs s))))) [
        | inl t ↦ rw t (is_plain-AreVisible s (unquoted-is_plain s t))
        | inr n ↦ rw n (quoted s)
      ]

  attribute-AreVisible :
      (name value : Bytes)
      → AreVisible (b' ' ∷ (escape_control quote_rune name ++ (b'=' ∷ quote_value quote value)))
  attribute-AreVisible name value =
      all-append is_visible (escape_control quote_rune name) (b'=' ∷ quote_value quote value)
        (escape_control-AreVisible quote_rune quoted_rune name) (quote_value-AreVisible value)

  mutual
    unfolding append_attr append_attrs

    append_attr-AreVisible :
        (groups : Bytes) (a : Attr) → AreVisible (append_attr quote quote_rune groups a)
    append_attr-AreVisible groups zero_attr = refl
    append_attr-AreVisible groups (leaf key value) = attribute-AreVisible (groups ++ key) value
    append_attr-AreVisible groups (group key attrs) =
        append_attrs-AreVisible (add_group groups key) attrs

    append_attrs-AreVisible :
        (groups : Bytes) (attrs : Attrs) → AreVisible (append_attrs quote quote_rune groups attrs)
    append_attrs-AreVisible groups nil = refl
    append_attrs-AreVisible groups (cons a attrs) =
        all-append is_visible (append_attr quote quote_rune groups a)
          (append_attrs quote quote_rune groups attrs) (append_attr-AreVisible groups a)
          (append_attrs-AreVisible groups attrs)

  -- The handlers that the program can have.
  pub data IsBuilt : Handler → Type 0 where
    fresh : (verbosity : ℕ) (h : Handler) → new_logger verbosity ≡ some h → IsBuilt h
    with_more :
        (attrs : Attrs) {h : Handler} → IsBuilt h → IsBuilt (with_attrs quote quote_rune attrs h)
    within_group : (name : Bytes) {h : Handler} → IsBuilt h → IsBuilt (with_group name h)

  new_logger-attrs : (verbosity : ℕ) (h : Handler) → new_logger verbosity ≡ some h → h.attrs ≡ []
  unfolding new_logger
  new_logger-attrs verbosity h e = ground arith

  IsBuilt-attrs : {h : Handler} → IsBuilt h → AreVisible h.attrs
  unfolding with_attrs with_group
  IsBuilt-attrs (fresh verbosity h e) = rw (new_logger-attrs verbosity h e)
  IsBuilt-attrs (with_more attrs {h} b) =
      all-append is_visible h.attrs (append_attrs quote quote_rune h.groups attrs) (IsBuilt-attrs b)
        (append_attrs-AreVisible h.groups attrs)
  IsBuilt-attrs (within_group name b) = IsBuilt-attrs b

  module _ (level_text : ℤ → Bytes) (named : (level : ℤ) → AreVisible (level_text level)) where
    level_name-AreVisible : (level : ℤ) → AreVisible (level_name level_text level)
    unfolding level_name
    level_name-AreVisible level = ground (arith, named level)

    -- A record of the debug log is one line that ends in a line feed and has no other control byte,
    -- whatever the message, the attributes and their groups hold: `strconv` and slog write their
    -- texts without control characters.
    pub handle-AreVisible :
        (h : Handler) (level : ℤ) (message : Bytes) (attrs : Attrs)
        → IsBuilt h
        → (line : Bytes) × (handle quote quote_rune level_text h level message attrs
            ≡ line ++ b'\n' ∷ [])
          × AreVisible line
    unfolding handle line_body
    handle-AreVisible h level message attrs b =
        let name = level_name level_text level in
        let body = escape_control quote_rune message in
        let shown = append_attrs quote quote_rune h.groups attrs in
        (
          line_body quote quote_rune level_text h level message attrs,
          refl,
          all-append is_visible name (codes ": " ++ (body ++ (h.attrs ++ shown)))
              (level_name-AreVisible level)
              (all-append is_visible body (h.attrs ++ shown)
                (escape_control-AreVisible quote_rune quoted_rune message)
                (all-append is_visible h.attrs shown (IsBuilt-attrs b)
                  (append_attrs-AreVisible h.groups attrs))),
        )

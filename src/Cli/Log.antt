-- ===== src/Cli/Log.antt =====
-- pkg/cli/log.go: the debug log. A value is the text that `a.Value.String()` gives after `Resolve`;
-- `level_text` is the lower-case name that slog has for a level.
pub mod Level
pub mod Lines
use ssh_sign.Prelude.{
  ℕ, ◌*◌, ◌-◌, ◌+◌, Bool, true, false, not, ◌&&◌, ◌||◌, List, [], ◌∷◌, ◌++◌, Option, none, some,
  ◌==◌, leb, if◌then◌else◌, is_nil, any, min, ltb, ℤ, pos, negsuc, sub_ℕ, ltb_ℤ,
}
use ssh_sign.Text.Bytes.{Bytes, codes}
use ssh_sign.Text.Utf8.{Glyph, glyphs, valid_string}
use ssh_sign.Cli.Escape.{is_control}
use ssh_sign.Cli.Format.{escape_control}

-- `slog.LevelDebug`, and four and eight below it
abbrev pub level_debug1 : ℤ
level_debug1 = negsuc 3

abbrev pub level_debug2 : ℤ
level_debug2 = negsuc 7

abbrev pub level_debug3 : ℤ
level_debug3 = negsuc 11

abbrev pub max_verbosity : ℕ
max_verbosity = 3

abbrev pub level_eq : ℤ → ℤ → Bool
level_eq a b = not (ltb_ℤ a b) && not (ltb_ℤ b a)

-- `slog.Attr`: the zero one, one with a text, or a group.
mutual
  pub data Attr : Type 0 where
    zero_attr : Attr
    leaf : Bytes → Bytes → Attr
    group : Bytes → Attrs → Attr

  pub data Attrs : Type 0 where
    nil : Attrs
    cons : Attr → Attrs → Attrs

pub record Handler : Type 0 where
  pub level : ℤ
  pub groups : Bytes
  pub attrs : Bytes

-- The handler of `NewLogger`; none discards every record.
unfoldable pub new_logger : ℕ → Option Handler
new_logger verbosity =
    if ltb verbosity 1
    then none
    else some (record {
      level = sub_ℕ 0 (4 + 4 * (min verbosity max_verbosity - 1));
      groups = [];
      attrs = [];
    })

unfoldable pub enabled : Handler → ℤ → Bool
enabled h level = not (ltb_ℤ level h.level)

abbrev pub needs_quoting : Glyph → Bool
needs_quoting g = elim (g.rune) [
  | none ↦ false
  | some r ↦ is_control r || r == b' ' || r == b'"' || r == b'='
]

abbrev pub add_group : Bytes → Bytes → Bytes
add_group groups name = if is_nil name then groups else groups ++ (name ++ codes ".")

unfoldable pub with_group : Bytes → Handler → Handler
with_group name h = record h { groups = add_group h.groups name }

-- `levelName`; `level_text` is the name of another level.
module _ (level_text : ℤ → Bytes) where
  unfoldable pub level_name : ℤ → Bytes
  level_name level =
      if level_eq level level_debug1
      then codes "debug1"
      else if level_eq level level_debug2
      then codes "debug2"
      else if level_eq level level_debug3
      then codes "debug3"
      else level_text level

module _ (quote : Bytes → Bytes) where
  unfoldable pub quote_value : Bytes → Bytes
  unfolding glyphs valid_string is_control
  quote_value s =
      if not (is_nil s) && (valid_string s && not (any needs_quoting (glyphs s)))
      then s
      else quote s

module _ (quote : Bytes → Bytes) (quote_rune : ℕ → Bytes) where
  unfoldable mutual
    pub append_attr : Bytes → Attr → Bytes
    append_attr groups zero_attr = []
    append_attr groups (leaf key value) =
        b' ' ∷ (escape_control quote_rune (groups ++ key) ++ (b'=' ∷ quote_value quote value))
    append_attr groups (group key attrs) = append_attrs (add_group groups key) attrs

    pub append_attrs : Bytes → Attrs → Bytes
    append_attrs groups nil = []
    append_attrs groups (cons a attrs) = append_attr groups a ++ append_attrs groups attrs

  unfoldable pub with_attrs : Attrs → Handler → Handler
  unfolding append_attrs
  with_attrs attrs h = record h { attrs = h.attrs ++ append_attrs h.groups attrs }

  module _ (level_text : ℤ → Bytes) where
    -- The line without the line feed that ends it.
    unfoldable pub line_body : Handler → ℤ → Bytes → Attrs → Bytes
    unfolding append_attrs level_name escape_control
    line_body h level message attrs =
        level_name level_text level
        ++ (codes ": "
            ++ (escape_control quote_rune message ++ (h.attrs ++ append_attrs h.groups attrs)))

    -- What `Handle` writes.
    unfoldable pub handle : Handler → ℤ → Bytes → Attrs → Bytes
    unfolding line_body
    handle h level message attrs = line_body h level message attrs ++ b'\n' ∷ []

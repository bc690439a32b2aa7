-- ===== src/Args/Help.antt =====
-- internal/args/args.go: `Help`. `quote` stands for `%q`, and widths are counted as Go does: the
-- column's in bytes, the padding in runes.
use ssh_sign.Prelude.{
  ℕ, ◌-◌, not, ◌&&◌, List, [], ◌∷◌, ◌++◌, if◌then◌else◌, is_nil, length, map, max,
}
use ssh_sign.Text.Bytes.{Bytes, codes}
use ssh_sign.Text.Utf8.{glyphs}
use ssh_sign.Cli.Format.{spaces}
use ssh_sign.Args.Flags.{Flag, Command, FlagSet, is_string}

unfoldable pub help_name : Flag → Bytes
help_name f =
    if not (is_nil f.short)
    then codes "  -" ++ (f.short ++ (codes ", --" ++ f.long))
    else codes "      --" ++ f.long

abbrev pub width_of : List Bytes → ℕ
width_of [] = 0
width_of (name ∷ names) = max (length name) (width_of names)

-- `%-*s`
abbrev pub left_aligned : ℕ → Bytes → Bytes
left_aligned width s = s ++ spaces (width - length (glyphs s))

abbrev pub concat : List Bytes → Bytes
concat [] = []
concat (s ∷ rest) = s ++ concat rest

unfoldable pub command_line : ℕ → Command → Bytes
unfolding glyphs
command_line width c =
    codes "  " ++ (left_aligned width c.name ++ (codes "   " ++ (c.description ++ b'\n' ∷ [])))

module _ (quote : Bytes → Bytes) where
  -- The default value is shown if there is one.
  unfoldable pub usage_of : Flag → Bytes
  usage_of f =
      if is_string f.kind && not (is_nil f.def)
      then f.usage ++ (codes " (default " ++ (quote f.def ++ codes ")"))
      else f.usage

  unfoldable pub option_line : ℕ → Flag → Bytes
  unfolding help_name usage_of glyphs
  option_line width f =
      left_aligned width (help_name f) ++ (codes "   " ++ (usage_of f ++ b'\n' ∷ []))

  unfoldable pub help : FlagSet → Bytes
  unfolding command_line option_line
  help s =
      if not (is_nil s.commands)
      then codes "usage: "
        ++ (s.name
            ++ (codes " <command> [command option]..\n\ncommands:\n"
                ++ concat (
                    map (command_line (width_of (map (λ (c : Command). c.name) s.commands)))
                      s.commands)))
      else codes "usage: "
        ++ (s.name
            ++ (codes " [option]..\n\noptions:\n"
                ++ concat (map (option_line (width_of (map help_name s.flags))) s.flags)))

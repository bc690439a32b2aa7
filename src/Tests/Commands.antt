-- ===== src/Tests/Commands.antt =====
-- The configuration, the keys, the input files and the command lines of the program.
use ssh_sign.Prelude.{true, false, List, [], ◌∷◌, ◌++◌, some, ◌≡◌, ◌↔◌, ◌≤◌, refl, ok, err, inr}
use ssh_sign.Text.Bytes.{Bytes, codes, bytes_eq, has_prefix, has_suffix, cut}
use ssh_sign.Text.Utf8.{glyphs, is_space, drop_spaces, drop_spaces_right, trim_space}
use ssh_sign.Text.Scan.{drop_cr, scan_lines}
use ssh_sign.Text.Base64.{decode}
use ssh_sign.Sshsig.PublicKey.{fields, decode_key, check_type, parse_public_key_line}
use ssh_sign.Config.Ini.{
  Config, alias, set_alias, valid_alias_name, header_line, check_alias, store, option_line,
  trimmed_line, config_lines, parse,
}
use ssh_sign.Config.Ini.Sound.{AreAliases, parse-AreAliases}
use ssh_sign.Cmd.Keys.{may_be_alias, resolve_key_reference}
use ssh_sign.Cmd.Keys.Resolve.{resolve_key_reference-parse}
use ssh_sign.Cmd.Choice.{chosen_key, sign_key}
use ssh_sign.Cmd.Choice.Lazy.{sign_key-chosen_key}
use ssh_sign.Cmd.Inputs.{SignersFile, read_signers_files}
use ssh_sign.Cmd.Inputs.Limits.{AreRead, total_size, contents, read_signers_files_iff}
use ssh_sign.Args.Flags.{Flag, FlagSet, lookup, add, string, set_first, has_long}
use ssh_sign.Args.Flags.Unique.{IsAdded, add-IsAdded}
use ssh_sign.Args.Parse.{parse_flags}
use ssh_sign.Args.Parse.Forms.{IsName, long_argument, parse_flags_long_forms}
use ssh_sign.Args.Validate.{validate}
use ssh_sign.Args.Validate.Sound.{IsComplete, validate_iff}
use ssh_sign.Cli.Escape.{escape_json_controls}
use ssh_sign.Cli.Escape.Clean.{is_clean, escape_json_controls-is_clean}
use ssh_sign.Tests.Data.{toy, reader}

abbrev alice_key : Bytes
alice_key = codes "ssh-ed25519 AQID"

abbrev config_text : Bytes
config_text = codes "[alias]\nalice = ssh-ed25519 AQID\n"

abbrev config : Config
config = record { path = []; sign_key = []; aliases = (codes "alice", alice_key) ∷ [] }

config_run : parse toy (reader config_text) ≡ ok config
unfolding bytes_eq has_prefix has_suffix cut glyphs is_space drop_spaces drop_spaces_right
    trim_space drop_cr scan_lines decode fields decode_key check_type parse_public_key_line
    set_alias valid_alias_name header_line check_alias store option_line trimmed_line config_lines
    parse
config_run = refl

parse-AreAliases_example : AreAliases toy config.aliases
parse-AreAliases_example = parse-AreAliases toy (reader config_text) config config_run

alias_run : alias (codes "alice") config.aliases ≡ some alice_key
unfolding alias bytes_eq
alias_run = refl

resolve_key_reference-parse_example :
    (pk : Bytes) × (parse_public_key_line toy alice_key ≡ ok pk)
    × (resolve_key_reference toy config (codes "alice") ≡ ok (pk, some (codes "alice")))
resolve_key_reference-parse_example =
    resolve_key_reference-parse toy (reader config_text) config (codes "alice") alice_key config_run
      alias_run

plain_run : may_be_alias toy alice_key ≡ false
unfolding may_be_alias bytes_eq has_prefix glyphs is_space decode fields decode_key check_type
    parse_public_key_line valid_alias_name
plain_run = refl

sign_key-chosen_key_example :
    sign_key toy {E = Unit} (err tt) alice_key ≡ chosen_key toy {E = Unit} config alice_key
sign_key-chosen_key_example =
    sign_key-chosen_key toy {E = Unit} config (err tt) alice_key (inr (refl, plain_run))

abbrev files : List SignersFile
files =
    record { path = codes "a"; reader = reader (codes "xy") }
    ∷ record { path = codes "b"; reader = reader (codes "z") }
    ∷ []

read_signers_files_example :
    (read_signers_files 4 4 files ≡ ok (contents files))
    ↔ (AreRead files × (total_size files ≤ 4) × (contents files ≡ contents files))
read_signers_files_example = read_signers_files_iff 4 4 files (contents files)

abbrev out_flag : Flag
out_flag = record {
  long = codes "output";
  short = codes "o";
  usage = [];
  def = [];
  kind = string;
  str = [];
  boolean = false;
  count = 0;
  changed = false;
}

abbrev no_flags : FlagSet
no_flags = record {
  name = codes "sign";
  flags = [];
  required = codes "output" ∷ [];
  deny_empty = codes "output" ∷ [];
  exclusive = [];
  commands = [];
}

abbrev one_flag : FlagSet
one_flag = record no_flags { flags = out_flag ∷ [] }

add_run : add out_flag no_flags ≡ some one_flag
unfolding add bytes_eq has_prefix glyphs
add_run = refl

add-IsAdded_example : IsAdded out_flag no_flags one_flag
add-IsAdded_example = add-IsAdded out_flag no_flags one_flag add_run

lookup_run : lookup (codes "output") one_flag.flags ≡ some out_flag
unfolding lookup bytes_eq
lookup_run = refl

output-IsName : IsName (codes "output")
unfolding has_prefix
output-IsName = record { not_nil = refl; no_dash = refl; no_separator = refl }

abbrev given : List Flag
given = record out_flag { str = codes "x"; changed = true } ∷ []

parse_flags_long_forms_example :
    (parse_flags one_flag.flags
        (long_argument (codes "output" ++ b'=' ∷ codes "x") ∷ codes "y" ∷ [])
      ≡ parse_flags
          (set_first (has_long (codes "output")) (codes "x") one_flag.flags)
          (codes "y" ∷ []))
    × (parse_flags one_flag.flags (long_argument (codes "output") ∷ codes "x" ∷ codes "y" ∷ [])
        ≡ parse_flags
            (set_first (has_long (codes "output")) (codes "x") one_flag.flags)
            (codes "y" ∷ []))
parse_flags_long_forms_example =
    parse_flags_long_forms one_flag.flags (codes "output") (codes "x") out_flag (codes "y" ∷ [])
      output-IsName lookup_run refl

abbrev arguments : List Bytes
arguments = codes "-ox" ∷ codes "y" ∷ []

validate_example : (validate one_flag given ≡ ok tt) ↔ IsComplete one_flag given
validate_example = validate_iff one_flag given

-- A delete character, a two-byte control and plain text.
abbrev controls : Bytes
controls = 0x7f ∷ 0xc2 ∷ 0x85 ∷ codes "ok"

escape_json_controls-is_clean_example : is_clean (escape_json_controls controls) ≡ true
escape_json_controls-is_clean_example = escape_json_controls-is_clean controls

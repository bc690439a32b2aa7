-- ===== src/Tests/Signers.antt =====
-- Patterns, lines and files of allowed signers, and matches among the test entries.
use ssh_sign.Prelude.{
  true, false, not, ◌&&◌, [], ◌∷◌, none, some, ◌≡◌, ◌↔◌, refl, any, all, find, ◌||◌, if◌then◌else◌,
  arith, ok,
}
use ssh_sign.Text.Bytes.{Bytes, codes}
use ssh_sign.Text.Bytes.{has_suffix, contains, trim_left, split}
use ssh_sign.Text.Base64.{decode}
use ssh_sign.Sshsig.PublicKey.{public_key_equal, decode_key}
use ssh_sign.Signers.Pattern.{wildcard_match, patterns_match, pattern_list_match}
use ssh_sign.Signers.Fields.{is_separator, token_is_option, split_fields, split_options}
use ssh_sign.Signers.Quote.{unquote_option_value, unquote_principals}
use ssh_sign.Signers.Timestamp.RoundTrip.{IsWritable, parse_keygen_timestamp-written}
use ssh_sign.Signers.Timestamp.{Civil, utc_unix, days_in, parse_keygen_timestamp}
use ssh_sign.Signers.Options.{parse_options}
use ssh_sign.Signers.Line.{parse_line}
use ssh_sign.Signers.File.{append, file_lines}
use ssh_sign.Signers.Match.{namespace_constraint_result, is_candidate, match_entry_in}
use ssh_sign.Signers.Pattern.{match_loop as match_pattern, match_fuel}
use ssh_sign.Signers.Pattern.Glob.{glob}
use ssh_sign.Signers.Pattern.Correct.{match_loop-eq-glob, wildcard_match-eq-glob}
use ssh_sign.Signers.Pattern.Lists.{includes, excludes, patterns_match_lem}
use ssh_sign.Signers.Fields.Plain.{spaced, split_fields-spaced}
use ssh_sign.Signers.Fields.Total.{EndsInOrder, split_fields-EndsInOrder}
use ssh_sign.Signers.Line.Sound.{IsEntry, parse_line-IsEntry}
use ssh_sign.Signers.File.{File, empty_file}
use ssh_sign.Signers.File.Parts.{file_lines-append}
use ssh_sign.Signers.Match.{
  checked, required, entry, rejected, nothing, ConstraintError, namespace_mismatch,
}
use ssh_sign.Signers.Match.Usable.{
  accepted, or_else, marked, is_usable, is_match, is_mismatch, with_restricted,
  is_restricted_usable, is_fallback,
}
use ssh_sign.Signers.Match.Selection.{
  match_entry_first, match_entry_required, match_entry-eq-nothing_iff, constraint_result-rejected,
}
use ssh_sign.Signers.Match.Selected.{IsSelected, match_entry-IsSelected}
use ssh_sign.Tests.Data.{toy, machine, git, key, alice_line, alice, signers, at}

wildcard_match-eq-glob_example :
    wildcard_match (codes "*@b?") (codes "a@b@bc") ≡ glob (codes "*@b?") (codes "a@b@bc")
wildcard_match-eq-glob_example = wildcard_match-eq-glob (codes "*@b?") (codes "a@b@bc")

match_loop-eq-glob_example :
    match_pattern (match_fuel (codes "*ab") (codes "aab")) (codes "*ab") (codes "aab") none
    ≡ some (glob (codes "*ab") (codes "aab"))
match_loop-eq-glob_example = match_loop-eq-glob (codes "*ab") (codes "aab")

patterns_match_example : patterns_match (codes "*" ∷ codes "!bob" ∷ []) (codes "bob") ≡ (
    not (any (excludes (codes "bob")) (codes "*" ∷ codes "!bob" ∷ []))
    && any (includes (codes "bob")) (codes "*" ∷ codes "!bob" ∷ []))
patterns_match_example = patterns_match_lem (codes "*" ∷ codes "!bob" ∷ []) (codes "bob")

split_fields-spaced_example :
    split_fields (spaced (codes "a" ∷ codes "b" ∷ []) (codes " \"c")) 2
    ≡ ok (codes "a" ∷ codes "b" ∷ [], trim_left is_separator (codes " \"c"))
split_fields-spaced_example =
    split_fields-spaced (codes "a") (codes "b" ∷ []) (codes " \"c")
      ((refl, refl), ((refl, refl), tt))

split_fields-EndsInOrder_example : EndsInOrder 2 (split_fields (codes "a \"b c\" d") 2)
split_fields-EndsInOrder_example = split_fields-EndsInOrder (codes "a \"b c\" d") 2 (omega arith)

line_run : parse_line machine toy 1 alice_line ≡ ok alice
unfolding split decode decode_key token_is_option split_fields split_options unquote_option_value
    unquote_principals parse_options parse_line
line_run = refl

parse_line-IsEntry_example : IsEntry machine toy 1 alice
parse_line-IsEntry_example = parse_line-IsEntry machine toy 1 alice_line alice line_run

file_lines-append_example :
    file_lines machine toy (empty_file Bytes) 0 (alice_line ∷ codes "?" ∷ [])
    ≡ append
        (file_lines machine toy (empty_file Bytes) 0 (alice_line ∷ []))
        (file_lines machine toy (empty_file Bytes) 1 (codes "?" ∷ []))
file_lines-append_example = file_lines-append machine toy 0 (alice_line ∷ []) (codes "?" ∷ [])

abbrev alone : File Bytes
alone = record (empty_file Bytes) { entries = alice ∷ [] }

match_run : match_entry_in toy key (codes "alice") git (at 5) checked signers ≡ entry alice true
unfolding has_suffix contains split public_key_equal wildcard_match patterns_match
    pattern_list_match match_entry_in
match_run = refl

match_entry-IsSelected_example :
    IsSelected toy key (codes "alice") git (at 5) checked signers alice true
match_entry-IsSelected_example =
    match_entry-IsSelected toy key (codes "alice") git (at 5) checked signers alice true match_run

match_entry_first_example :
    accepted (match_entry_in toy key (codes "alice") git (at 5) checked signers)
    ≡ with_restricted toy key
        (codes "alice")
        git
        (at 5)
        checked
        (find (is_usable toy key (codes "alice") git (at 5) checked) signers.entries)
match_entry_first_example =
    match_entry_first toy key (codes "alice") git (at 5) checked signers refl

match_entry_required_example :
    accepted (match_entry_in toy key [] git (at 5) required signers)
    ≡ or_else
        (marked true (find (is_restricted_usable toy key [] git (at 5) required) signers.entries))
        (marked false (find (is_fallback toy key [] git (at 5) required) signers.entries))
match_entry_required_example = match_entry_required toy key [] git (at 5) required signers refl

match_entry-eq-nothing_example :
    (match_entry_in toy key (codes "carol") git (at 5) checked signers ≡ nothing)
    ↔ (any (is_candidate toy key (codes "carol") git (at 5) checked) signers.entries ≡ false)
match_entry-eq-nothing_example =
    match_entry-eq-nothing_iff toy key (codes "carol") git (at 5) checked signers

abbrev refusal : ConstraintError
refusal = record {
  messages = namespace_mismatch [] 1 ∷ [];
  candidates = 1;
  namespace_matches = 0;
  namespace_mismatches = 1;
}

refused_run :
    match_entry_in toy key (codes "alice") (codes "file") (at 5) checked signers ≡ rejected refusal
unfolding has_suffix contains split public_key_equal wildcard_match patterns_match
    pattern_list_match match_entry_in
refused_run = refl

constraint_result-rejected_example : namespace_constraint_result (some refusal) ≡ (
    if any (is_match toy key (codes "alice") (codes "file") (at 5) checked) signers.entries
    then (true, true)
    else if all
        (λ ent.
          not (is_candidate toy key (codes "alice") (codes "file") (at 5) checked ent)
          || is_mismatch toy key (codes "alice") (codes "file") (at 5) checked ent)
        signers.entries
    then (true, false)
    else (false, false))
constraint_result-rejected_example =
    constraint_result-rejected toy key (codes "alice") (codes "file") (at 5) checked signers refusal
      refused_run

abbrev noon : Civil
noon = record { year = 2026; month = 2; day = 28; hour = 12; minute = 0; second = 59 }

noon-IsWritable : IsWritable noon
unfolding days_in
noon-IsWritable = record { ranged = refl; short_year = omega arith }

parse_keygen_timestamp-written_example :
    parse_keygen_timestamp machine.local (codes "20260228120059Z")
    ≡ ok (record { unix = utc_unix noon; nsec = 0 })
parse_keygen_timestamp-written_example =
    parse_keygen_timestamp-written machine.local noon noon-IsWritable

-- ===== src/Tests/Flow.antt =====
-- `Verify` and `Check` on the test data.
use ssh_sign.Prelude.{false, [], some, ◌≡◌, ◌↔◌, refl, ap}
use ssh_sign.Text.Bytes.{codes}
use ssh_sign.Sshsig.Armor.{armor}
use ssh_sign.Flow.Choice.{valid}
use ssh_sign.Text.Bytes.{has_suffix, contains, split}
use ssh_sign.Text.Utf8.{valid_string}
use ssh_sign.Text.Base64.{decode}
use ssh_sign.Sshsig.PublicKey.{public_key_equal, decode_key}
use ssh_sign.Sshsig.Certificate.{as_certificate, public_key_type, certificate_valid_at}
use ssh_sign.Sshsig.Structure.{
  validate_namespace, is_security_key, hash, security_key_fields, validate_signature_format,
  validate_structure, validate_signature_algorithm,
}
use ssh_sign.Sshsig.Protocol.{signed_data, verify as verify_signature, parse_signature}
use ssh_sign.Sshsig.Armored.{read_limited, check_block, signature_read}
use ssh_sign.Signers.Pattern.{wildcard_match, patterns_match, pattern_list_match}
use ssh_sign.Signers.Fields.{token_is_option, split_fields, split_options}
use ssh_sign.Signers.Quote.{unquote_option_value, unquote_principals}
use ssh_sign.Signers.Options.{parse_options}
use ssh_sign.Signers.Line.{validate_line_characters, parse_line}
use ssh_sign.Signers.File.{parse_with_max, parse}
use ssh_sign.Signers.Match.{namespace_constraint_result, match_entry_in, match_entry}
use ssh_sign.Flow.Verify.{
  VerifyOpts, VerifyResult, resolve_designation, resolve_authentication, verify_inputs,
  parse_allowed_signers, match_signer, verify_parse, verify,
}
use ssh_sign.Flow.Check.{CheckOpts, check}
use ssh_sign.Flow.Verify.Policy.{IsAccepted, verify_accepts_iff}
use ssh_sign.Flow.Verify.Signer.{IsAuthorized, verify-IsAuthorized}
use ssh_sign.Flow.Verify.Statuses.{NoneInvalid, verify_statuses}
use ssh_sign.Flow.Check.Policy.{IsAccepted as IsCheckAccepted, check_iff}
use ssh_sign.Tests.Data.{toy, machine, pem, reader, git, message, armored, signers_text, at}

abbrev verify_opts : VerifyOpts
verify_opts = record {
  allowed_signers_file = some (reader signers_text);
  allowed_signers_files = [];
  namespace = git;
  no_namespace = false;
  principal = codes "alice";
  signature_file = some (reader armored);
  timestamp = at 15;
  verify_file = some (reader message);
}

abbrev check_opts : CheckOpts
check_opts = record {
  namespace = git;
  no_namespace = false;
  auth_key = codes "ssh-ed25519 AQID";
  no_auth_key = false;
  signature_file = some (reader armored);
  timestamp = at 15;
  verify_file = some (reader message);
}

abbrev verified : VerifyResult
verified = record {
  authentication = valid;
  designation = valid;
  namespace = git;
  principal = codes "alice";
  verification = valid;
  entry = some (record { file = []; line = 1 });
}

verify_run : verify machine toy pem (at 15) verify_opts ≡ (some verified, [])
unfolding armor contains split valid_string decode public_key_equal decode_key as_certificate
    public_key_type certificate_valid_at validate_namespace is_security_key hash security_key_fields
    validate_signature_format validate_structure validate_signature_algorithm signed_data
    parse_signature read_limited check_block signature_read wildcard_match patterns_match
    pattern_list_match token_is_option split_fields split_options unquote_option_value
    unquote_principals parse_options validate_line_characters parse_line parse_with_max parse
    namespace_constraint_result match_entry_in match_entry verify_signature has_suffix
    resolve_designation resolve_authentication verify_inputs parse_allowed_signers match_signer
    verify_parse verify
verify_run = refl

verify-IsAuthorized_example : IsAuthorized machine toy pem (at 15) verify_opts
verify-IsAuthorized_example =
    verify-IsAuthorized machine toy pem (at 15) verify_opts (ap (λ r. r.1) verify_run)

verify_accepts_example :
    ((verify machine toy pem (at 15) verify_opts).1 ≡ [])
    ↔ IsAccepted machine toy pem (at 15) verify_opts
verify_accepts_example = verify_accepts_iff machine toy pem (at 15) verify_opts

verify_statuses_example :
    ((verify machine toy pem (at 15) verify_opts).1 ≡ []) ↔ NoneInvalid machine toy pem verified
verify_statuses_example =
    verify_statuses machine toy pem (at 15) verify_opts verified (ap (λ r. r.0) verify_run)

check_example :
    ((check toy pem (at 15) check_opts).1 ≡ []) ↔ IsCheckAccepted toy pem (at 15) check_opts
check_example = check_iff toy pem (at 15) check_opts

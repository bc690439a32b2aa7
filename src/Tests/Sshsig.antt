-- ===== src/Tests/Sshsig.antt =====
-- Signing, verifying and parsing the test signature.
use ssh_sign.Prelude.{some, ◌≡◌, ◌↔◌, subst, ◌++◌, refl, ok, err}
use ssh_sign.Text.Bytes.{codes, bytes_eq, bytes_eq_refl, has_suffix}
use ssh_sign.Text.Scan.{Reader}
use ssh_sign.Sshsig.Certificate.{as_certificate, public_key_type, certificate_valid_at}
use ssh_sign.Sshsig.Certificate.Window.{AcceptedAt, certificate_valid_at_iff}
use ssh_sign.Sshsig.Structure.{
  read_error, hash, hash_sha512, is_security_key, validate_namespace, validate_structure,
  validate_signature_format, validate_rest, security_key_fields, validate_signature_algorithm,
}
use ssh_sign.Sshsig.Structure.Sound.{
  IsSound, IsModern, validate_structure_iff, validate_signature_algorithm_iff,
}
use ssh_sign.Sshsig.Protocol.{
  hash_message, signed_data, sign_blob, sign, is_rsa_certificate, select_signer, signature_create,
  verify, parse_signature, signature_wire, marshal,
}
use ssh_sign.Sshsig.Protocol.Laws.{IsVerified, IsReadable, verify_iff, parse_signature-marshal}
use ssh_sign.Sshsig.Protocol.Undecided.{verify_read_error_iff}
use ssh_sign.Sshsig.Protocol.Signing.{IsHonest, IsSigned, signature_create-verify}
use ssh_sign.Tests.Data.{
  toy, reader, git, message, signature, signer, certificate_key, at, key, toy_signature,
}

verify_iff_example :
    (verify toy (reader message) signature ≡ ok tt) ↔ IsVerified toy (reader message) signature
verify_iff_example = verify_iff toy (reader message) signature

abbrev broken : Reader
broken = record { content = message; failure = some (codes "broken pipe") }

verify_read_error_example :
    (verify toy broken signature ≡ err (read_error (codes "broken pipe"))) ↔ (
      IsSound toy signature
      × IsModern toy signature
      × (broken.failure ≡ some (codes "broken pipe")))
verify_read_error_example = verify_read_error_iff toy broken signature (codes "broken pipe")

validate_structure_example : (validate_structure toy signature ≡ ok tt) ↔ IsSound toy signature
validate_structure_example = validate_structure_iff toy signature

validate_signature_algorithm_example :
    (validate_signature_algorithm toy signature ≡ ok tt) ↔ IsModern toy signature
validate_signature_algorithm_example = validate_signature_algorithm_iff toy signature

pub structure_run : validate_structure toy signature ≡ ok tt
unfolding validate_structure validate_rest security_key_fields validate_namespace hash
    validate_signature_format is_security_key public_key_type as_certificate bytes_eq has_suffix
structure_run = refl

pub signature-IsReadable : IsReadable toy signature
unfolding signature_wire
signature-IsReadable = record { wire = refl; key = refl; field = refl }

parse_signature-marshal_example : parse_signature toy (marshal toy signature) ≡ ok signature
parse_signature-marshal_example =
    parse_signature-marshal toy signature signature-IsReadable
      ((validate_structure_iff toy signature).0 structure_run)

pub signer-IsHonest : IsHonest toy signer
signer-IsHonest = record {
  plain = λ blob s h.
      let same : toy_signature (key ++ blob) ≡ s = cc in
      subst (λ x. toy.verify key blob x ≡ ok tt) same (rw (bytes_eq_refl (key ++ blob)));
  chosen = λ f e blob alg s h. cc;
}

pub create_run : signature_create toy (some signer) git (reader message) ≡ ok signature
unfolding signature_create select_signer is_rsa_certificate as_certificate sign validate_namespace
    hash_message sign_blob signed_data hash validate_signature_algorithm public_key_type bytes_eq
    has_suffix
create_run = refl

signature_create-verify_example :
    IsSigned toy signer.public_key hash_sha512 git (reader message) signature
    × (verify toy (reader message) signature ≡ ok tt)
signature_create-verify_example =
    let sound = (validate_structure_iff toy signature).0 structure_run in
    signature_create-verify toy signer git (reader message) signature signer-IsHonest create_run
      sound.rest_fits sound.format_fits

certificate_valid_at_example :
    (certificate_valid_at toy certificate_key (at 15) ≡ ok tt)
    ↔ AcceptedAt toy (at 15) (as_certificate toy certificate_key)
certificate_valid_at_example = certificate_valid_at_iff toy certificate_key (at 15)

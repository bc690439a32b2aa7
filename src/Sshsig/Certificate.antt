-- ===== src/Sshsig/Certificate.antt =====
-- pkg/sshsig/certificate.go, and `publicKeyType` of signature.go.
pub mod Window
use ssh_sign.Prelude.{
  ℕ, ◌^◌, ◌-◌, Bool, true, false, not, ◌&&◌, ◌||◌, Option, none, some, ◌==◌, if◌then◌else◌, Result,
  ok, err, ◌>>=◌, ℤ, pos, ltb_ℤ, to_int64,
}
use ssh_sign.Text.Bytes.{Bytes, codes, bytes_eq, has_suffix}
use ssh_sign.Ssh.{Ssh, Certificate}
use ssh_sign.Signers.Timestamp.{Time}

abbrev pub certificate_suffix : Bytes
certificate_suffix = codes "-cert-v01@openssh.com"

-- `ssh.UserCert` and `ssh.CertTimeInfinity`
abbrev pub user_cert : ℕ
user_cert = 1

abbrev pub cert_time_infinity : ℕ
cert_time_infinity = 2 ^ 64 - 1

pub data CertError : Type 0 where
  unparseable : Bytes → CertError
  not_a_certificate : Bytes → CertError
  not_a_user_certificate : ℕ → CertError
  not_valid_until : ℕ → CertError
  expired_at : ℕ → CertError

-- The window of `CertificateValidAt`, in Unix seconds.
unfoldable pub check_window : ℕ → ℕ → ℤ → Result CertError (Unit {0})
check_window valid_after valid_before unix =
    let after = to_int64 valid_after in
    let before = to_int64 valid_before in
    if ltb_ℤ after (pos 0) || ltb_ℤ unix after
    then err (not_valid_until valid_after)
    else if not (valid_before == cert_time_infinity)
        && (not (ltb_ℤ unix before) || ltb_ℤ before (pos 0))
    then err (expired_at valid_before)
    else ok tt

module _ (ssh : Ssh) where
  open ssh use {PublicKey, key_type, marshal_key, parse_public_key, certificate}

  -- A key parsed from a certificate's blob.
  parsed_certificate :
      PublicKey → Result Bytes PublicKey → Result CertError (Option (Certificate PublicKey))
  parsed_certificate pk (err msg) = err (unparseable msg)
  parsed_certificate pk (ok parsed) = elim (certificate parsed) [
    | none ↦ err (not_a_certificate (key_type pk))
    | some cert ↦ ok (some cert)
  ]

  unfoldable pub as_certificate : PublicKey → Result CertError (Option (Certificate PublicKey))
  unfolding parsed_certificate
  as_certificate pk = elim (certificate pk) [
    | some cert ↦ ok (some cert)
    | none ↦
        if not (has_suffix (key_type pk) certificate_suffix)
        then ok none
        else parsed_certificate pk (parse_public_key (marshal_key pk))
  ]

  -- The signing key's type: that of the key inside, if `pk` is a certificate.
  unfoldable pub public_key_type : PublicKey → Bytes
  public_key_type pk = elim (as_certificate pk) [
    | err e ↦ key_type pk
    | ok found ↦ elim found [ none ↦ key_type pk | some cert ↦ key_type cert.key ]
  ]

  check_user_certificate : Certificate PublicKey → Time → Result CertError (Unit {0})
  check_user_certificate cert at =
      if not (cert.cert_type == user_cert)
      then err (not_a_user_certificate cert.cert_type)
      else check_window cert.valid_after cert.valid_before at.unix

  unfoldable pub certificate_valid_at : PublicKey → Time → Result CertError (Unit {0})
  unfolding check_user_certificate
  certificate_valid_at pk at = elim (as_certificate pk) [
    | err e ↦ err e
    | ok found ↦ elim found [ none ↦ ok tt | some cert ↦ check_user_certificate cert at ]
  ]

-- ===== src/Flow/Verify.antt =====
-- pkg/flow/verify.go: `Verify`. Debug output is left out, and `now` is the clock.
pub mod Policy
pub mod Signer
pub mod Statuses
use ssh_sign.Prelude.{
  ℕ, Bool, true, false, not, ◌&&◌, ◌||◌, List, [], ◌∷◌, ◌++◌, Option, none, some, if◌then◌else◌,
  is_nil, is_some, Result, ok, err, map_err, guard, ◌>>=◌, ◌>>◌,
}
use ssh_sign.Text.Bytes.{Bytes, codes, bytes_eq}
use ssh_sign.Text.Scan.{Reader}
use ssh_sign.Ssh.{Ssh}
use ssh_sign.Sshsig.Certificate.{certificate_valid_at}
use ssh_sign.Sshsig.Structure.{Signature}
use ssh_sign.Sshsig.Protocol.{verify as verify_signature}
use ssh_sign.Sshsig.Armored.{Pem, signature_read}
use ssh_sign.Signers.Timestamp.{Time, is_zero_time}
use ssh_sign.Signers.Line.{Entry, Machine}
use ssh_sign.Signers.File.{File, empty_file, append, parse, parse_source}
use ssh_sign.Signers.Match.{
  Found, entry, rejected, nothing, ConstraintError, namespace_constraint_result, match_entry,
  match_entry_ignoring_namespace, match_entry_restricting_namespace,
}
use ssh_sign.Flow.Choice.{
  Status, valid, invalid, disabled, FlowError, exclusive_signers, signers_failed,
  unreadable_signature, unverified_namespace, other_namespace, failed_constraints, not_found,
  certificate_refused, NamedReader, require, check_namespace, with_verification,
}

pub record VerifyOpts : Type 0 where
  pub allowed_signers_file : Option Reader
  pub allowed_signers_files : List NamedReader
  pub namespace : Bytes
  pub no_namespace : Bool
  pub principal : Bytes
  pub signature_file : Option Reader
  pub timestamp : Time
  pub verify_file : Option Reader

pub record VerifyEntry : Type 0 where
  pub file : Bytes
  pub line : ℕ

pub record VerifyResult : Type 0 where
  pub authentication : Status
  pub designation : Status
  pub namespace : Bytes
  pub principal : Bytes
  pub verification : Status
  pub entry : Option VerifyEntry

-- An explicit namespace that equals the signature's must also satisfy the allowed signers.
constrained_designation : Bool × Bool → Status
constrained_designation (checked, matched) = if checked && not matched then invalid else valid

-- The values of `matchSigner`: the entry, whether it restricts namespaces, and the error.
module _ {K : Type 0} where
  abbrev pub found_entry : Found K → Option (Entry K)
  found_entry (entry ent restricted) = some ent
  found_entry (rejected e) = none
  found_entry nothing = none

  abbrev pub found_restricted : Found K → Bool
  found_restricted (entry ent restricted) = restricted
  found_restricted (rejected e) = false
  found_restricted nothing = false

  abbrev pub found_error : Found K → Option ConstraintError
  found_error (entry ent restricted) = none
  found_error (rejected e) = some e
  found_error nothing = none

  -- An inferred namespace is in order only if an accepted entry restricts it.
  inferred_designation : Bytes → Found K → Status × Option FlowError
  inferred_designation ns (entry ent restricted) =
      if restricted then (valid, none) else (invalid, some (unverified_namespace ns))
  inferred_designation ns (rejected e) = (invalid, none)
  inferred_designation ns nothing = (invalid, none)

  unfoldable pub resolve_designation :
      VerifyOpts → Signature K → Found K → Status × Option FlowError
  unfolding inferred_designation constrained_designation
  resolve_designation opts sig found =
      if opts.no_namespace
      then (disabled, none)
      else if is_nil opts.namespace
      then inferred_designation sig.namespace found
      else if not (bytes_eq opts.namespace sig.namespace)
      then (invalid, some (other_namespace sig.namespace opts.namespace))
      else (constrained_designation (namespace_constraint_result (found_error found)), none)

  -- The status, the identity that is reported, and the error.
  unfoldable pub resolve_authentication : VerifyOpts → Found K → Status × Bytes × Option FlowError
  resolve_authentication opts (rejected e) =
      (invalid, opts.principal, some (failed_constraints opts.principal e))
  resolve_authentication opts nothing = (invalid, opts.principal, some (not_found opts.principal))
  resolve_authentication opts (entry ent restricted) =
      if is_nil opts.principal
      then (disabled, ent.principal, none)
      else (valid, opts.principal, none)

  abbrev pub entry_of : Found K → Option VerifyEntry
  entry_of (entry ent restricted) = some (record { file = ent.source; line = ent.line })
  entry_of (rejected e) = none
  entry_of nothing = none

abbrev pub error_list : Option FlowError → List FlowError
error_list none = []
error_list (some e) = e ∷ []

require_all : List NamedReader → Result FlowError (Unit {0})
require_all [] = ok tt
require_all (f ∷ fs) = do _ ← require f.name f.reader; require_all fs

-- The `switch` at the beginning: one reader, or several with a name each.
abbrev require_signers : Option Reader → List NamedReader → Result FlowError (Unit {0})
require_signers r [] = do _ ← require (codes "allowed signers file") r; ok tt
require_signers r (f ∷ fs) = guard (not (is_some r)) exclusive_signers

-- The namespace options are checked if one of them is set.
abbrev namespace_options : VerifyOpts → Result FlowError (Unit {0})
namespace_options opts =
    if not (is_nil opts.namespace) || opts.no_namespace
    then check_namespace opts.namespace opts.no_namespace
    else ok tt

-- The checks of the options: the signature's reader and that of the data.
unfoldable pub verify_inputs : VerifyOpts → Result FlowError (Reader × Reader)
unfolding require_all check_namespace
verify_inputs opts = do
  require_signers opts.allowed_signers_file opts.allowed_signers_files
  require_all opts.allowed_signers_files
  s ← require (codes "signature file") opts.signature_file
  v ← require (codes "verify file") opts.verify_file
  namespace_options opts
  ok (s, v)

abbrev pub timestamp_or : Time → Time → Time
timestamp_or now t = if is_zero_time t then now else t

module _ (m : Machine) (ssh : Ssh) (decode_pem : Pem) where
  open ssh use {PublicKey}

  -- The loop over the named files, each added behind those before it.
  append_files : File PublicKey → List NamedReader → Result FlowError (File PublicKey)
  append_files parsed [] = ok parsed
  append_files parsed (f ∷ fs) = do
    r ← require f.name f.reader
    p ← map_err (signers_failed f.name) (parse_source m ssh r f.name)
    append_files (append parsed p) fs

  unfoldable pub parse_allowed_signers :
      Option Reader → List NamedReader → Result FlowError (File PublicKey)
  unfolding append_files
  parse_allowed_signers r [] = do
    reader ← require (codes "allowed signers file") r
    map_err (signers_failed []) (parse m ssh reader)
  parse_allowed_signers r (f ∷ fs) = append_files (empty_file PublicKey) (f ∷ fs)

  unfoldable pub match_signer :
      VerifyOpts → File PublicKey → Signature PublicKey → Time → Found PublicKey
  match_signer opts parsed sig ts =
      if opts.no_namespace
      then match_entry_ignoring_namespace ssh parsed sig.public_key opts.principal ts
      else if is_nil opts.namespace
      then match_entry_restricting_namespace ssh parsed sig.public_key opts.principal sig.namespace
          ts
      else match_entry ssh parsed sig.public_key opts.principal sig.namespace ts

  -- The certificate's own window: the status of the authentication and the error.
  unfoldable pub certificate_check : Signature PublicKey → Time → Status → Status × List FlowError
  certificate_check sig ts status = elim (certificate_valid_at ssh sig.public_key ts) [
    | ok _ ↦ (status, [])
    | err e ↦ (invalid, certificate_refused e ∷ [])
  ]

  -- The checks, all of them run, from the matched entry on.
  unfoldable pub verify_found :
      VerifyOpts
      → Signature PublicKey
      → Found PublicKey
      → Time
      → Reader
      → Option VerifyResult × List FlowError
  unfolding certificate_check with_verification
  verify_found opts sig found ts data0 =
      let (designation, designation_err) = resolve_designation opts sig found in
      let (authentication, principal, authentication_err) = resolve_authentication opts found in
      let (status, certificate_errs) = certificate_check sig ts authentication in
      with_verification (verify_signature ssh data0 sig)
        (error_list designation_err ++ (error_list authentication_err ++ certificate_errs))
        (λ verification. record {
          authentication = status;
          designation = designation;
          namespace = sig.namespace;
          principal = principal;
          verification = verification;
          entry = entry_of found;
        })

  -- What stops `Verify` before its checks: the options, an unreadable file or signature.
  unfoldable pub verify_parse :
      VerifyOpts → Result FlowError (File PublicKey × Signature PublicKey × Reader)
  verify_parse opts = do
    (s, v) ← verify_inputs opts
    parsed ← parse_allowed_signers opts.allowed_signers_file opts.allowed_signers_files
    sig ← map_err unreadable_signature (signature_read ssh decode_pem s)
    ok (parsed, sig, v)

  unfoldable pub verify : Time → VerifyOpts → Option VerifyResult × List FlowError
  unfolding verify_found
  verify now opts = elim (verify_parse opts) [
    | err e ↦ (none, e ∷ [])
    | ok (parsed, sig, v) ↦
        let ts = timestamp_or now opts.timestamp in
        verify_found opts sig (match_signer opts parsed sig ts) ts v
  ]

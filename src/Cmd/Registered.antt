-- ===== src/Cmd/Registered.antt =====
-- main.go: the table of commands; and internal/cmd: the `Flags` method of each command, with the
-- fields that its flags set.
use ssh_sign.Prelude.{Bool, false, List, [], ◌∷◌, ◌++◌, Option, none, some}
use mathlib.Core.List.{foldl}
use ssh_sign.Text.Bytes.{Bytes, codes}
use ssh_sign.Args.Flags.{
  Flag, FlagSet, lookup, add_string, add_bool, add_count, new_set, require, deny_empty,
  mutually_exclusive, add_command,
}
use ssh_sign.Cmd.Verify.{VerifyArgs}
use ssh_sign.Cmd.Check.{CheckArgs}
use ssh_sign.Cmd.Sign.{SignArgs}

pub data Subcommand : Type 0 where
  inspect sign verify check version : Subcommand

abbrev pub name_of : Subcommand → Bytes
name_of inspect = codes "inspect"
name_of sign = codes "sign"
name_of verify = codes "verify"
name_of check = codes "check"
name_of version = codes "version"

abbrev pub description_of : Subcommand → Bytes
description_of inspect = codes "Show signature details"
description_of sign = codes "Sign data with specified public key and namespace"
description_of verify = codes "Verify signed data using allowed signers files"
description_of check = codes "Check signed data, with optional public key/namespace validation"
description_of version = codes "Show version"

abbrev pub commands : List Subcommand
commands = inspect ∷ sign ∷ verify ∷ check ∷ version ∷ []

-- A call of a method of a set; `none` is a panic.
abbrev pub Call : Type 0
Call = FlagSet → Option FlagSet

abbrev pub calls : List Call → Call
calls [] s = some s
calls (f ∷ fs) s = elim (f s) [ none ↦ none | some s' ↦ calls fs s' ]

abbrev pub signature_file_calls : Bytes → List Call
signature_file_calls usage =
    add_string (codes "signature-file") (codes "s") [] usage
    ∷ deny_empty (codes "signature-file")
    ∷ []

abbrev pub verify_file_calls : List Call
verify_file_calls =
    add_string (codes "verify-file") (codes "f") []
      (codes "read data to verify from file (required)")
    ∷ require (codes "verify-file")
    ∷ deny_empty (codes "verify-file")
    ∷ []

abbrev pub namespace_calls : Bytes → Bytes → List Call
namespace_calls def usage =
    add_string (codes "namespace") (codes "n") def
      (codes "require a signature with specified namespace")
    ∷ add_bool (codes "no-namespace") (codes "N") usage
    ∷ mutually_exclusive (codes "namespace" ∷ codes "no-namespace" ∷ [])
    ∷ []

abbrev pub timestamp_calls : List Call
timestamp_calls =
    add_string (codes "timestamp") (codes "t") []
      (codes "validate this RFC3339/RFC1123 timestamp rather than current time")
    ∷ deny_empty (codes "timestamp")
    ∷ []

abbrev pub default_signature_usage : Bytes
default_signature_usage =
    codes "read signature from file (default stdin, or <verify-file>.sig when stdin=tty)"

-- The calls of each command's `Flags`
abbrev pub inspect_calls : List Call
inspect_calls = signature_file_calls (codes "read signature from file instead of stdin")

abbrev pub sign_calls : List Call
sign_calls =
    add_string (codes "data-file") (codes "f") []
      (codes "read data to sign from file instead of stdin")
    ∷ deny_empty (codes "data-file")
    ∷ add_string (codes "namespace") (codes "n") (codes "file")
        (codes "create signature with specified namespace")
    ∷ deny_empty (codes "namespace")
    ∷ add_string (codes "sign-key") (codes "k") []
        (codes "create signature using this pubkey reference or config alias")
    ∷ deny_empty (codes "sign-key")
    ∷ []

abbrev pub verify_calls : List Call
verify_calls =
    add_string (codes "allowed-signers-file") (codes "a") []
      (codes "read allowed signers, with options, from file")
    ∷ deny_empty (codes "allowed-signers-file")
    ∷ (verify_file_calls
        ++ (signature_file_calls default_signature_usage
            ++ (namespace_calls [] (
                  codes "ignore the signature namespace and allowed signers namespace restrictions")
                ++ (add_string (codes "principal") (codes "p") []
                      (codes "allow this signer (email usually) from allowed signers file")
                    ∷ deny_empty (codes "principal")
                    ∷ timestamp_calls))))

abbrev pub check_calls : List Call
check_calls =
    verify_file_calls
    ++ (signature_file_calls default_signature_usage
        ++ (namespace_calls (codes "file") (codes "accept a signature with any namespace")
            ++ (add_string (codes "auth-key") (codes "k") []
                  (codes "require a signature created by this public key or config alias")
                ∷ add_bool (codes "no-auth-key") (codes "K")
                    (codes "accept a signature created by any public key")
                ∷ mutually_exclusive (codes "auth-key" ∷ codes "no-auth-key" ∷ [])
                ∷ timestamp_calls)))

-- `command.Flags`
unfoldable pub flags_of : Subcommand → List Call
flags_of inspect = inspect_calls
flags_of sign = sign_calls
flags_of verify = verify_calls
flags_of check = check_calls
flags_of version = []

-- The sets of `main`: that of the program, and that of a command with the two common flags.
unfoldable pub root_set : Option FlagSet
unfolding new_set
root_set = elim (new_set (codes "ssh-sign")) [
  | none ↦ none
  | some s ↦ some (foldl (λ t c. add_command (name_of c) (description_of c) t) s commands)
]

unfoldable pub command_set : Subcommand → Option FlagSet
unfolding flags_of new_set
command_set c = elim (new_set (codes "ssh-sign " ++ name_of c)) [
  | none ↦ none
  | some s ↦
      calls
        (flags_of c
          ++ (add_bool (codes "json") (codes "j") (codes "enable JSON output")
              ∷ add_count (codes "verbose") (codes "v")
                  (codes "write debug output to stderr, repeatable up to -vvv")
              ∷ []))
        s
]

-- What the variable behind a flag holds.
unfoldable pub string_of : Bytes → List Flag → Bytes
unfolding lookup
string_of name fs = elim (lookup name fs) [ none ↦ [] | some f ↦ f.str ]

unfoldable pub bool_of : Bytes → List Flag → Bool
unfolding lookup
bool_of name fs = elim (lookup name fs) [ none ↦ false | some f ↦ f.boolean ]

unfoldable pub verify_args : List Flag → VerifyArgs
unfolding string_of bool_of
verify_args fs = record {
  namespace = string_of (codes "namespace") fs;
  no_namespace = bool_of (codes "no-namespace") fs;
  principal = string_of (codes "principal") fs;
  allowed_signers_file = string_of (codes "allowed-signers-file") fs;
  signature_file = string_of (codes "signature-file") fs;
  timestamp = string_of (codes "timestamp") fs;
  verify_file = string_of (codes "verify-file") fs;
}

unfoldable pub check_args : List Flag → CheckArgs
unfolding string_of bool_of
check_args fs = record {
  auth_key = string_of (codes "auth-key") fs;
  namespace = string_of (codes "namespace") fs;
  no_auth_key = bool_of (codes "no-auth-key") fs;
  no_namespace = bool_of (codes "no-namespace") fs;
  signature_file = string_of (codes "signature-file") fs;
  timestamp = string_of (codes "timestamp") fs;
  verify_file = string_of (codes "verify-file") fs;
}

unfoldable pub sign_args : List Flag → SignArgs
unfolding string_of
sign_args fs = record {
  data_file = string_of (codes "data-file") fs;
  sign_key = string_of (codes "sign-key") fs;
  namespace = string_of (codes "namespace") fs;
}

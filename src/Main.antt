-- ===== src/Main.antt =====
-- main.go: `main`, and pkg/cli/result.go. The process ends with a status, after writing to standard
-- output and standard error.
pub mod Total
pub mod Ordered
pub mod Status
pub mod Verified
use ssh_sign.Prelude.{
  ℕ, Bool, true, false, not, ◌&&◌, List, [], ◌∷◌, ◌++◌, Option, none, some, ◌==◌, if◌then◌else◌,
  is_nil, is_some, any, find, map, Result, ok, err,
}
use ssh_sign.Text.Bytes.{Bytes, codes, bytes_eq}
use ssh_sign.Ssh.{Ssh, Certificate}
use ssh_sign.Os.{History, Os, Action}
use ssh_sign.Helper.{Parser}
use ssh_sign.Sshsig.Structure.{Signature}
use ssh_sign.Sshsig.Protocol.{Signer}
use ssh_sign.Sshsig.Armored.{Pem}
use ssh_sign.Sshsig.Info.{SignatureInfo}
use ssh_sign.Signers.Timestamp.{Time}
use ssh_sign.Signers.Line.{Machine}
use ssh_sign.Flow.Verify.{VerifyResult}
use ssh_sign.Flow.Check.{CheckResult}
use ssh_sign.Flow.Report.{verify_text, check_text, inspect_text, sign_text}
use ssh_sign.Args.Flags.{Flag, FlagSet}
use ssh_sign.Args.Parse.{ArgError, help_requested, usage}
use ssh_sign.Args.Command.{parse, parse_command}
use ssh_sign.Args.Help.{help}
use ssh_sign.Cli.Escape.{escape_json_controls}
use ssh_sign.Cli.Format.{escape_control, color_error}
use ssh_sign.Cmd.Inputs.{InputError}
use ssh_sign.Cmd.Failure.{Failure, Failures, is_usage_error}
use ssh_sign.Cmd.Verify.{verify_run}
use ssh_sign.Cmd.Check.{check_run}
use ssh_sign.Cmd.Sign.{sign_run}
use ssh_sign.Cmd.Inspect.{inspect_run, resolve_version}
use ssh_sign.Cmd.Registered.{
  Subcommand, inspect, sign, verify, check, version, name_of, commands, root_set, command_set,
  bool_of, string_of, verify_args, check_args, sign_args,
}

-- The data that a command returns.
pub data Output (K : Type 0) : Type 0 where
  inspected : SignatureInfo → Output K
  signed : Signature K → Output K
  verified : VerifyResult → Output K
  checked : CheckResult → Output K
  versioned : Bytes → Output K

-- `cli.Result`
pub record CliResult (K : Type 0) : Type 0 where
  pub value : Option (Output K)
  pub errors : Failures

-- An error that `main` reports.
pub data Complaint : Type 0 where
  bad_arguments : ArgError → Complaint
  failed : Failure → Complaint
  no_json : Bytes → Complaint
  unwritten : Bytes → Complaint
  help_unwritten : Bytes → Complaint

-- What surrounds the program: the packages that it calls, the terminal and the clock.
pub record World (ssh : Ssh) : Type 0 where
  pub os : Os
  pub machine : Machine
  pub now : Time
  pub decode_pem : Pem
  pub parse_time : Parser
  pub parse_local : Parser
  pub parse_uint : Bytes → Option ℕ
  pub authorized_key : ssh.PublicKey → Bytes
  pub fingerprint : ssh.PublicKey → Bytes
  pub application : Bytes → Bytes → Option Bytes
  -- what the agent answers, and `ssh.NewCertSigner`
  pub listed : Result Bytes (List (Signer ssh.PublicKey))
  pub new_cert_signer :
      Certificate ssh.PublicKey → Signer ssh.PublicKey → Result Bytes (Signer ssh.PublicKey)
  -- the texts of errors
  pub input_text : InputError → Bytes
  pub message : Complaint → Bytes
  -- `strconv.Quote` and `QuoteRune`, and `json.MarshalIndent` of a result
  pub quote : Bytes → Bytes
  pub quote_rune : ℕ → Bytes
  pub marshal : CliResult ssh.PublicKey → Result Bytes Bytes
  -- whether standard output and standard error show colours, and the error of a write
  pub color_out : Bool
  pub color_err : Bool
  pub write : Bytes → Result Bytes (Unit {0})
  -- the version of the build, and that of the module
  pub build_version : Bytes
  pub module_version : Option Bytes

-- The end of the process.
pub record Exit : Type 0 where
  pub status : ℕ
  pub stdout : Bytes
  pub stderr : Bytes

module _ {K : Type 0} where
  -- `NewResult` of what `Run` returns
  abbrev pub result_of :
      {A : Type 0} → (A → Output K) → Result Failures (Option A × Failures) → CliResult K
  result_of f (err es) = record { value = none; errors = es }
  result_of f (ok (found, es)) = record {
    value = elim found [ none ↦ none | some a ↦ some (f a) ];
    errors = es;
  }

  abbrev pub single_result : {A : Type 0} → (A → Output K) → Result Failures A → CliResult K
  single_result f (err es) = record { value = none; errors = es }
  single_result f (ok a) = record { value = some (f a); errors = [] }

  abbrev pub finished :
      {A : Type 0}
      → (Result Failures A → CliResult K)
      → Result Failures A × History
      → CliResult K × History
  finished f (r, h) = (f r, h)

module _ (ssh : Ssh) (w : World ssh) where
  open ssh use {PublicKey}

  -- `command.Run(log)`, from the flags
  unfoldable pub run : Subcommand → List Flag → CliResult PublicKey × History
  unfolding inspect_run sign_run verify_run check_run resolve_version verify_args check_args
      sign_args string_of
  run inspect fs = finished (single_result inspected) (
      inspect_run w.os w.input_text ssh w.decode_pem w.fingerprint w.application
        (string_of (codes "signature-file") fs) [])
  run sign fs =
      finished (single_result signed)
        (sign_run w.os ssh w.listed w.new_cert_signer w.now (sign_args fs) [])
  run verify fs = finished (result_of verified) (
      verify_run w.os w.parse_time w.parse_local w.input_text w.machine ssh w.decode_pem w.now
        (verify_args fs) [])
  run check fs = finished (result_of checked) (
      check_run w.os w.parse_time w.parse_local w.input_text ssh w.authorized_key w.decode_pem w.now
        (check_args fs) [])
  run version fs = (
    record {
      value = some (versioned (resolve_version w.build_version w.module_version));
      errors = [];
    },
    [],
  )

  -- `reportErrors`, one line for each
  report_line : Bytes → Complaint → Bytes
  unfolding escape_control color_error
  report_line prefix c =
      let line =
        codes "error: " ++ (prefix ++ (codes ": " ++ escape_control w.quote_rune (w.message c))) in
      if w.color_err then color_error line ++ b'\n' ∷ [] else line ++ b'\n' ∷ []

  unfoldable pub report : Bytes → List Complaint → Bytes
  unfolding report_line
  report prefix [] = []
  report prefix (c ∷ cs) = report_line prefix c ++ report prefix cs

  -- `die` and `dieUsage`
  abbrev pub die : Bytes → List Complaint → Exit
  die prefix cs = record { status = 1; stdout = []; stderr = report prefix cs }

  abbrev pub die_usage : Bytes → List Complaint → Exit
  die_usage prefix cs = record { status = 2; stdout = []; stderr = report prefix cs }

  -- `writeText` to standard output, and the end of the process: `status` if all was written.
  abbrev pub write_out : ℕ → Bytes → Bytes → (Bytes → Complaint) → Exit
  write_out status prefix out complaint = elim (w.write out) [
    | ok _ ↦ record { status = status; stdout = out; stderr = [] }
    | err e ↦ die prefix (complaint e ∷ [])
  ]

  -- `exitOnHelpOrUsage` and what follows it.
  unfoldable pub exit_arguments : Bytes → FlagSet → ArgError → Exit
  unfolding report help
  exit_arguments prefix s help_requested =
      write_out 0 (codes "usage") (help w.quote s) help_unwritten
  exit_arguments prefix s usage = record { status = 2; stdout = []; stderr = help w.quote s }
  exit_arguments prefix s e = die_usage prefix (bad_arguments e ∷ [])

  -- `res.Data.String()`, or with colours
  unfoldable pub output_text : Output PublicKey → Bytes
  unfolding verify_text check_text inspect_text sign_text
  output_text (inspected info) = inspect_text w.quote w.parse_uint info
  output_text (signed sig) = sign_text ssh sig
  output_text (verified res) = verify_text w.quote w.color_out res
  output_text (checked res) = check_text w.quote w.color_out res
  output_text (versioned v) = v

  -- The result as JSON: an error among it is the status.
  unfoldable pub exit_json : Bytes → CliResult PublicKey → Exit
  unfolding escape_json_controls report
  exit_json name res = elim (w.marshal res) [
    | err e ↦ die name (no_json e ∷ [])
    | ok out ↦
        write_out (if is_nil res.errors then 0 else 1) name (escape_json_controls out ++ b'\n' ∷ [])
          unwritten
  ]

  unfoldable pub exit_value : Bytes → Option (Output PublicKey) → Exit
  unfolding output_text report
  exit_value name none = record { status = 0; stdout = []; stderr = [] }
  exit_value name (some out) = write_out 0 name (output_text out ++ b'\n' ∷ []) unwritten

  abbrev pub complaints : Failures → List Complaint
  complaints = map failed

  -- The end of `main`, from the result of a command.
  unfoldable pub exit_result : Bytes → Bool → CliResult PublicKey → Exit
  unfolding exit_json exit_value report
  exit_result name json res =
      if any is_usage_error res.errors
      then die_usage name (complaints res.errors)
      else if json
      then exit_json name res
      else if not (is_nil res.errors)
      then die name (complaints res.errors)
      else exit_value name res.value

  unfoldable pub run_command : Subcommand → FlagSet → List Bytes → Exit × History
  unfolding run exit_result exit_arguments parse bool_of
  run_command c s argv = elim (parse s argv) [
    | err e ↦ (exit_arguments (name_of c) s e, [])
    | ok fs ↦
        let (res, h) = run c fs in (exit_result (name_of c) (bool_of (codes "json") fs) res, h)
  ]

  -- The command of that name, with its flags registered.
  unfoldable pub start_command : Bytes → List Bytes → Option (Exit × History)
  unfolding run_command bytes_eq
  start_command name argv = elim (find (λ c. bytes_eq (name_of c) name) commands) [
    | none ↦ none
    | some c ↦ elim (command_set c) [ none ↦ none | some s ↦ some (run_command c s argv) ]
  ]

  -- `main`; none is a panic.
  unfoldable pub main : List Bytes → Option (Exit × History)
  unfolding start_command exit_arguments parse_command
  main argv = elim root_set [
    | none ↦ none
    | some root ↦ elim (parse_command root argv) [
      | err e ↦ some (exit_arguments (codes "usage") root e, [])
      | ok (name, rest) ↦ start_command name rest
    ]
  ]

-- ===== src/Main/Ordered.antt =====
-- The history of a run of the program is in order.
use ssh_sign.Prelude.{List, [], some, find, ◌≡◌, refl, inl, inr, Option-cases, Result-cases}
use ssh_sign.Text.Bytes.{Bytes, codes, bytes_eq}
use ssh_sign.Ssh.{Ssh}
use ssh_sign.Os.{History}
use ssh_sign.Os.Orderly.{IsOrderly, IsPrepared}
use ssh_sign.Args.Flags.{Flag, FlagSet}
use ssh_sign.Args.Command.{parse, parse_command}
use ssh_sign.Cmd.Ordered.{verify_run-Ends, check_run-Ends, sign_run-Ends, inspect_run-Ends}
use ssh_sign.Cmd.Registered.{
  Subcommand, inspect, sign, verify, check, version, name_of, commands, root_set, command_set,
  verify_args, check_args, sign_args, string_of,
}
use ssh_sign.Main.{World, Exit, run, run_command, start_command, main}

at_start : IsPrepared []
at_start = (refl, tt)

module _ (ssh : Ssh) (w : World ssh) where
  run-IsOrderly : (c : Subcommand) (fs : List Flag) → IsOrderly (run ssh w c fs).1
  unfolding run
  run-IsOrderly inspect fs =
      (inspect_run-Ends w.os w.input_text ssh w.decode_pem w.fingerprint w.application
          (string_of (codes "signature-file") fs)).at
        [] at_start
  run-IsOrderly sign fs =
      (sign_run-Ends w.os ssh w.listed w.new_cert_signer w.now (sign_args fs)).at [] at_start
  run-IsOrderly verify fs =
      (verify_run-Ends w.os w.parse_time w.parse_local w.input_text w.machine ssh w.decode_pem w.now
          (verify_args fs)).at
        [] at_start
  run-IsOrderly check fs =
      (check_run-Ends w.os w.parse_time w.parse_local w.input_text ssh w.authorized_key w.decode_pem
          w.now (check_args fs)).at
        [] at_start
  run-IsOrderly version fs = tt

  run_command-IsOrderly :
      (c : Subcommand) (s : FlagSet) (argv : List Bytes) → IsOrderly (run_command ssh w c s argv).1
  unfolding run_command
  run_command-IsOrderly c s argv = elim (Result-cases (parse s argv)) [
    | inl (fs, p) ↦ rw (p, run_command) (run-IsOrderly c fs)
    | inr (e, p) ↦ rw (p, run_command) tt
  ]

  start_command-IsOrderly :
      (name : Bytes) (argv : List Bytes) (r : Exit × History)
      → start_command ssh w name argv ≡ some r
      → IsOrderly r.1
  unfolding start_command
  start_command-IsOrderly name argv r h =
      elim (Option-cases (find (λ c. bytes_eq (name_of c) name) commands)) [
        | inl n ↦ cc (rw (n, start_command) at h)
        | inr (c, e) ↦ elim (Option-cases (command_set c)) [
          | inl n ↦ cc (rw (e, n, start_command) at h)
          | inr (s, f) ↦
              let same : run_command ssh w c s argv ≡ r = cc (rw (e, f, start_command) at h) in
              rw (← same) (run_command-IsOrderly c s argv)
        ]
      ]

  -- In every run of the program each file and directory is opened, listed or inspected, and the
  -- agent's socket connected, before the Landlock rules are applied; the agent is asked and a flow
  -- started only after they were applied without an error; and they are applied once at most.
  pub main-IsOrderly :
      (argv : List Bytes) (exit : Exit) (history : History)
      → main ssh w argv ≡ some (exit, history)
      → IsOrderly history
  unfolding main
  main-IsOrderly argv exit history h = elim (Option-cases root_set) [
    | inl n ↦ cc (rw (n, main) at h)
    | inr (root, r) ↦ elim (Result-cases (parse_command root argv)) [
      | inl ((name, rest), p) ↦
          start_command-IsOrderly name rest (exit, history) (rw (r, p, main) at h)
      | inr (e, p) ↦ let same : [] ≡ history = cc (rw (r, p, main) at h) in rw (← same) tt
    ]
  ]

-- ===== src/Lib.antt =====
-- ssh-sign: signing files with SSH keys, and verifying such signatures, in the format of
-- `ssh-keygen -Y`. The program reads its command line (internal/args), its configuration
-- (internal/config) and its input files (internal/cmd), and hands readers to three flows
-- (pkg/flow): `Verify` checks a signature against allowed signers files (pkg/allowedsigners),
-- `Check` against one key, and `Sign` creates one. All of them rest on the signature protocol
-- (pkg/sshsig), which calls golang.org/x/crypto/ssh for keys, certificates and the wire encoding.
-- Results are printed with the terminal's controls escaped (pkg/cli).
--
-- How the files stand for the code:
-- - Prelude: lists, Boolean tests, integers, and Go's `(value, error)` pairs as `Result`.
-- - Text: strings as byte lists, and the functions of Go's standard library that the program calls:
--   Bytes (strings and bytes), Utf8 (`range`, `utf8.ValidString`, `strings.TrimSpace`), Scan
--   (`bufio.Scanner` on lines) and Base64 (`base64.StdEncoding`).
-- - Ssh: golang.org/x/crypto/ssh and the hash functions, a record that every definition takes as a
--   parameter; nothing is assumed of it but what a theorem names among its conditions.
-- - Sshsig (pkg/sshsig): PublicKey (publickey.go), Certificate (certificate.go), Structure (the
--   checks of protocol.go and signature.go that do not read the message), Protocol (`Sign`, `Verify`,
--   `ParseSignature`, `Marshal`, `SignatureCreate`), Armored (`SignatureRead`), Armor (`Armor`) and
--   Agent (the choice of a signer in agent.go).
-- - Signers (pkg/allowedsigners): Pattern (pattern.go), Fields, Quote, Options, Line and File
--   (parse.go, types.go), Timestamp (timeparse.go) and Match (verify.go).
-- - Flow (pkg/flow): Verify (verify.go), Check (check.go), Sign (sign.go) and what they share,
--   Choice (choice.go, named.go, reader.go).
-- - Args (internal/args/args.go): Flags (registration), Parse, Validate and Command.
-- - Config (internal/config): Ini (config.go) and Perm (perm_unix.go).
-- - Cmd (internal/cmd): Keys and Inputs (config.go, signature_stdin.go), Choice (the key to
--   sign with, of sign.go).
-- - Cli (pkg/cli/format.go): Escape.
-- - Tests: a small stand-in for the packages called, and each theorem at concrete inputs.
-- The modules below a component hold its theorems and are named for what they prove.
--
-- State and errors: a reader is its content and the error that ends it, so that reading is a
-- function; a parser's loop carries its variables as arguments, and a Go error is a constructor
-- with the values of its message. The clock, the time zone, Unicode's table of graphic characters
-- and `pem.Decode` are parameters, and so is `ssh.NewCertSigner`. Flags hold their values, where Go
-- stores them through pointers.
--
-- Bounds and fuel: sizes and limits are the source's (a signature of 2^20 bytes, lines of 4 * 2^20
-- and of 2^16 bytes, 64 recorded errors); the conversions of certificate times to signed words are
-- written out at 2^63 and 2^64. Three loops run on fuel: the pattern matcher on (n + 1) * (m + 1)
-- rounds, the field splitter on the length of the line, and the loop that breaks armored text into
-- lines on one more than its length; for each it is a theorem that it ends before the fuel does.
-- All other loops are structural.
--
-- The commands (internal/cmd, main.go), help texts, reports and the debug log are modelled in Cmd,
-- Main, Os, Helper, Args.Help, Flow.Report, Sshsig.Info, Cli.Format and Cli.Log.
--
-- Not modelled: the Landlock system calls, the text of error messages, and a nil pointer in place of
-- options.
pub mod Prelude
pub mod Text
pub mod Ssh
pub mod Sshsig
pub mod Signers
pub mod Flow
pub mod Args
pub mod Config
pub mod Os
pub mod Helper
pub mod Cmd
pub mod Main
pub mod Cli
pub mod Tests

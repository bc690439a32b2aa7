-- ===== src/Args.antt =====
-- internal/args/args.go: command-line options and subcommands.
pub mod Flags
pub mod Parse
pub mod Validate
pub mod Command
pub mod Help

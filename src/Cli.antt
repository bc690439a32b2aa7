-- ===== src/Cli.antt =====
-- pkg/cli: escaping of output.
pub mod Escape
pub mod Format
pub mod Log
pub mod Plain

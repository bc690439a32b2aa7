-- ===== src/Cmd.antt =====
-- internal/cmd: what the subcommands do with keys and files before they call the flow.
pub mod Keys
pub mod Inputs
pub mod Choice
pub mod Failure
pub mod Prepare
pub mod Verify
pub mod Check
pub mod Sign
pub mod Inspect
pub mod Ordered
pub mod Registered
pub mod Requested

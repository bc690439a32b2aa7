-- ===== src/Flow.antt =====
-- pkg/flow: the commands over readers.
pub mod Choice
pub mod Verify
pub mod Check
pub mod Sign
pub mod Inspect
pub mod Report

-- ===== src/Signers.antt =====
-- pkg/allowedsigners: allowed signers files.
pub mod Pattern
pub mod Fields
pub mod Quote
pub mod Timestamp
pub mod Options
pub mod Line
pub mod File
pub mod Match

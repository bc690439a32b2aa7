-- ===== src/Tests.antt =====
-- The code at concrete inputs: a small stand-in for the packages that the program calls, and each
-- theorem applied to files, options and signatures in which its conditions hold.
pub mod Data
pub mod Flow
pub mod Sshsig
pub mod Armor
pub mod Signers
pub mod Commands

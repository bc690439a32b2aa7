-- ===== src/Sshsig.antt =====
-- pkg/sshsig: the SSHSIG protocol.
pub mod PublicKey
pub mod Certificate
pub mod Structure
pub mod Protocol
pub mod Armored
pub mod Armor
pub mod Agent
pub mod Info

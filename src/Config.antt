-- ===== src/Config.antt =====
-- internal/config: the INI configuration and the files that may be trusted.
pub mod Ini
pub mod Perm
pub mod Files

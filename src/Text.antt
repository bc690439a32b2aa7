-- ===== src/Text.antt =====
-- Go's strings and the parts of its standard library that read them.
pub mod Bytes
pub mod Utf8
pub mod Scan
pub mod Base64
pub mod Numbers

-- ===== src/Crypto.antt =====
-- mtproto/crypto.go and the message keys of mtproto/invoke.go. AES and SHA-256 are parameters.
pub mod Bytes
pub mod Modular
pub mod Big
pub mod Sha1
pub mod Ige
pub mod IgeInverse

-- ===== src/Crypto.antt =====
-- src/crypto: what the program takes from other crates, as one record, and the code around it.
pub mod ApiKey
pub mod Externals
pub mod Signature
pub mod Hkdf
pub mod Encryption
pub mod Mac
pub mod BlindIndex
pub mod KeyCache

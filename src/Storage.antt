-- ===== src/Storage.antt =====
-- src/storage: what the program keeps in RocksDB, and the caches in front of it.
pub mod Codec
pub mod RocksDb
pub mod Bytes
pub mod Lru
pub mod Action
pub mod BlockchainStore
pub mod Startup
pub mod AuditTypes
pub mod AuditLog
pub mod NonceStore
pub mod Bans
pub mod RateLimitStore
pub mod Migration
pub mod MigrationStore
pub mod MigrationRunner

-- ===== src/Lib.antt =====
-- Goud Chain: a node of a proof-of-authority blockchain that stores encrypted accounts and collections.
-- A node keeps a chain of blocks, makes a block of its pending data when round robin names its
-- validator, takes blocks and chains from peers, and guards its interface by signed requests, by
-- limits with bans, and by checks of what is submitted. It keeps its chain and an audit log of what its
-- users do, the log as collections of the chain. Migrations change its database.
--
-- The parts, and the files of the program that they model:
--   Errors               src/types/errors.rs: `GoudChainError`, `Result` (with a third outcome for a panic)
--                        and the HTTP status of each error; Display: their texts
--   Constants            src/constants.rs, the constants that the modelled code reads
--   Config               src/config.rs: `ValidatorConfig` and `get_current_validator` of
--                        src/domain/blockchain.rs, which is `round_robin`
--   Crypto               src/crypto: Hkdf, Mac, Signature, Encryption, BlindIndex, KeyCache (over
--                        Storage.Lru). The crates' functions are the record `Externals`, an argument
--                        of everything that uses them
--   Domain.Types         the structs of src/domain
--   Domain.Envelope      src/domain/envelope.rs, and `EncryptedCollection::verify` without an API key
--   Domain.Collection    src/domain/encrypted_collection.rs; `EncryptedCollection::new` is `new_collection`
--   Domain.Merkle        `Block::calculate_merkle_root` of src/domain/block.rs
--   Domain.Block         the other methods of `Block`; `Block::new` is `new_block`
--   Domain.Blockchain    src/domain/blockchain.rs: Add (`new`, the pending data, `add_block`), Validate
--                        (`is_valid`), Replace (`replace_chain`), Find (the searches)
--   Storage              RocksDb, Lru: the crates, as interfaces with their documented laws;
--                        Codec: the crate `bincode`, likewise;
--                        BlockchainStore: src/storage/blockchain_store.rs (Metadata: its metadata,
--                        checkpoints and `clear_all`); NonceStore: src/storage/nonce_store.rs;
--                        Startup: `load_blockchain` of src/storage/mod.rs;
--                        AuditTypes: src/types/audit.rs; AuditLog: src/storage/audit_log.rs (`log`; Flush:
--                        `flush_all_batches`; Query: `query_logs` and the index of blocks);
--                        Bans, RateLimitStore: src/storage/rate_limit_store.rs;
--                        Migration, MigrationStore, MigrationRunner: the three files of these names
--   Network              src/network: Tracker (`RateLimitTracker`), Node (`P2PNode`: `handle_connection` and
--                        the answers of `request_chain_from_peers`)
--   Validation           src/types/validation.rs
--   Api.Schemas          `SubmitDataRequest` of src/api/schemas.rs; its `validate` is `validate_request`
--   Api.Auth             src/api/auth.rs; Crypto.ApiKey: src/crypto/api_key.rs and timing_safe.rs
--   Api.AuditRoute       src/api/routes/audit.rs
--   Api.RequestSignature src/api/request_signature.rs
--   Api.RateLimiter      src/api/rate_limiter.rs, over Storage.RateLimitStore; `allow_on_error` is what the
--                        routes (src/api/routes/data.rs) make of a check that fails
-- Prelude holds what the parts share. Tests has small functions in place of the crates and the
-- theorems at concrete inputs.
--
-- State is passed explicitly: an operation takes its struct and gives the changed one back, beside its
-- result. The clock and the random numbers are arguments, one for each time that the code reads them.
-- Locks are left out: an operation runs as a whole, and interleavings are lists of operations
-- (`sync_all`, `after_requests`, `after_checks`, `after_keys`). A `u32` and a `u64` keep their wrap-around
-- (`next_u32`, `next_index`, `elapsed`), as does the difference of two `i64` in the check of a
-- request's timestamp; texts are lists of characters.
--
-- The loops over chains and lists are structural. The merkle loop has as fuel the number of leaves, and
-- `calculate_merkle_root_total` shows that it is enough. The loop of `hkdf_expand` has as many rounds as
-- bytes are asked for, and each round adds a digest: `length-derive_key`. The loop over the stored
-- checkpoints ends where one is missing; its fuel is an argument, and more than there are checkpoints is
-- enough: `load_checkpoints_from-HoldsCheckpoints`.
--
-- Not modelled: sockets, timeouts and broadcasting, logging, the other HTTP routes, the websocket, and the
-- command line. Of the audit log the timer that flushes it and the callbacks are left out, and of the store
-- the opening of the database.
mod Prelude
pub mod Errors
pub mod Constants
pub mod Config
pub mod Validation
pub mod Crypto
pub mod Domain
pub mod Storage
pub mod Network
pub mod Api
mod Tests

-- ===== src/Errors/Display.antt =====
-- src/types/errors.rs: the text of an error (`#[error("...")]`).
use goud_chain.Prelude.{String, ◌+++◌, show, show_ℤ}
use goud_chain.Errors.{
  GoudChainError, encryption_failed, decryption_failed, invalid_signature, hex_decoding_error,
  base64_decoding_error, invalid_block_hash, broken_chain, invalid_merkle_root, future_timestamp,
  invalid_timestamp, invalid_validator, not_authorized_validator, empty_blockchain, no_pending_data,
  peer_connection_failed, serialization_error, deserialization_error, save_failed, load_failed,
  directory_creation_failed, rocks_db_error, key_not_found, invalid_request_body, data_not_found,
  unauthorized, authentication_failed, rate_limit_exceeded, api_key_banned, ip_address_banned,
  payload_too_large, invalid_label, invalid_json, json_too_deep, invalid_request_signature,
  nonce_reused, request_expired, config_error, audit_log_error, migration_not_found,
  migration_already_applied, migration_failed, invalid_migration_version, migration_rollback_failed,
  no_migrations_to_rollback, internal, utf8_error, io_error,
}

-- `to_string()`
unfoldable pub error_text : GoudChainError → String
error_text (encryption_failed s) = "Encryption failed: " +++ s
error_text decryption_failed = "Decryption failed: incorrect API key or corrupted data"
error_text invalid_signature = "Invalid signature"
error_text (hex_decoding_error s) = "Failed to decode hex: " +++ s
error_text (base64_decoding_error s) = "Failed to decode base64: " +++ s
error_text (invalid_block_hash i) = "Invalid block hash at index " +++ show i
error_text (broken_chain i) = "Broken chain at block " +++ show i +++ ": previous hash mismatch"
error_text (invalid_merkle_root i) = "Invalid merkle root at block " +++ show i
error_text (future_timestamp t) = "Block timestamp is in the future: " +++ show_ℤ t
error_text (invalid_timestamp i) = "Block " +++ show i +++ " timestamp is before previous block"
error_text (invalid_validator i expected actual) =
    "Invalid validator at block " +++ show i +++ ": expected " +++ expected +++ ", got " +++ actual
error_text (not_authorized_validator node_id expected_validator block_number) =
    "Node "
    +++ node_id
    +++ " not authorized to create block "
    +++ show block_number
    +++ ": only validator "
    +++ expected_validator
    +++ " can create this block (Proof of Authority)"
error_text empty_blockchain = "Empty blockchain: cannot get latest block"
error_text no_pending_data = "No pending data to create block"
error_text (peer_connection_failed s) = "Failed to connect to peer: " +++ s
error_text (serialization_error s) = "Failed to serialize message: " +++ s
error_text (deserialization_error s) = "Failed to deserialize message: " +++ s
error_text (save_failed s) = "Failed to save blockchain to disk: " +++ s
error_text (load_failed s) = "Failed to load blockchain from disk: " +++ s
error_text (directory_creation_failed s) = "Failed to create data directory: " +++ s
error_text (rocks_db_error s) = "RocksDB operation failed: " +++ s
error_text (key_not_found s) = "Key not found: " +++ s
error_text (invalid_request_body s) = "Invalid request body: " +++ s
error_text (data_not_found s) = "Data not found: " +++ s
error_text (unauthorized s) = "Unauthorized: " +++ s
error_text authentication_failed = "Authentication failed"
error_text (rate_limit_exceeded retry_after violation_count) =
    "Rate limit exceeded: "
    +++ show retry_after
    +++ " seconds until reset (violation #"
    +++ show violation_count
    +++ ")"
error_text (api_key_banned ban_level expires_at) =
    "API key banned (" +++ ban_level +++ "): expires at " +++ show_ℤ expires_at
error_text (ip_address_banned expires_at) = "IP address banned: expires at " +++ show_ℤ expires_at
error_text (payload_too_large actual_bytes max_bytes) =
    "Payload too large: " +++ show actual_bytes +++ " bytes (max: " +++ show max_bytes +++ " bytes)"
error_text (invalid_label s) = "Invalid label: " +++ s
error_text (invalid_json s) = "Invalid JSON: " +++ s
error_text (json_too_deep max_depth) =
    "JSON too deep: maximum " +++ show max_depth +++ " levels allowed"
error_text (invalid_request_signature s) = "Signature verification failed: " +++ s
error_text nonce_reused = "Replay attack detected: nonce already used"
error_text request_expired = "Request timestamp expired (older than 5 minutes)"
error_text (config_error s) = "Configuration error: " +++ s
error_text (audit_log_error s) = "Audit log operation failed: " +++ s
error_text (migration_not_found s) = "Migration not found: " +++ s
error_text (migration_already_applied s) = "Migration already applied: " +++ s
error_text (migration_failed s) = "Migration failed: " +++ s
error_text (invalid_migration_version s) = "Invalid migration version format: " +++ s
error_text (migration_rollback_failed s) = "Migration rollback failed: " +++ s
error_text no_migrations_to_rollback = "No migrations to rollback"
error_text (internal s) = "Internal error: " +++ s
error_text (utf8_error s) = "UTF-8 conversion error: " +++ s
error_text (io_error s) = "IO error: " +++ s

-- ===== src/Constants.antt =====
-- src/constants.rs: the numbers and texts that the modelled parts use.
use goud_chain.Prelude.{ℕ, ℤ, pos, negsuc, String}

-- Blockchain parameters
abbrev pub schema_version : String
schema_version = "v8_envelope_encryption"

abbrev pub checkpoint_interval : ℕ
checkpoint_interval = 100

abbrev pub timestamp_tolerance_seconds : ℕ
timestamp_tolerance_seconds = 14400

abbrev pub timestamp_granularity_seconds : ℕ
timestamp_granularity_seconds = 86400

abbrev pub timestamp_jitter_seconds : ℕ
timestamp_jitter_seconds = 14400

-- Cryptography
abbrev pub nonce_size_bytes : ℕ
nonce_size_bytes = 12

abbrev pub ed25519_public_key_size : ℕ
ed25519_public_key_size = 32

abbrev pub ed25519_signature_size : ℕ
ed25519_signature_size = 64

-- Genesis block
abbrev pub genesis_previous_hash : String
genesis_previous_hash = "0"

abbrev pub genesis_timestamp : ℤ
genesis_timestamp = pos 1704067200

abbrev pub empty_merkle_root : String
empty_merkle_root = "0"

-- Peers: the penalty is -5, the threshold -10
abbrev pub reputation_reward_valid_block : ℤ
reputation_reward_valid_block = pos 1

abbrev pub reputation_penalty_invalid_block : ℤ
reputation_penalty_invalid_block = negsuc 4

abbrev pub min_reputation_threshold : ℤ
min_reputation_threshold = negsuc 9

abbrev pub max_messages_per_minute : ℕ
max_messages_per_minute = 100

-- Rate limiting
abbrev pub rate_limit_write_per_second : ℕ
rate_limit_write_per_second = 10

abbrev pub rate_limit_read_per_second : ℕ
rate_limit_read_per_second = 100

abbrev pub rate_limit_window_seconds : ℕ
rate_limit_window_seconds = 1

abbrev pub violation_cooldown_seconds : ℕ
violation_cooldown_seconds = 30

abbrev pub ban_write_5min_seconds : ℕ
ban_write_5min_seconds = 300

abbrev pub ban_write_1hr_seconds : ℕ
ban_write_1hr_seconds = 3600

abbrev pub ban_ip_24hr_seconds : ℕ
ban_ip_24hr_seconds = 86400

-- Replay protection
abbrev pub request_timestamp_tolerance_seconds : ℕ
request_timestamp_tolerance_seconds = 300

-- Byte strings are written as the texts that they are the UTF-8 of.
abbrev pub encryption_salt : String
encryption_salt = "goud_chain_salt_v2"

abbrev pub hkdf_iterations : ℕ
hkdf_iterations = 100000

abbrev pub hkdf_fast_iterations : ℕ
hkdf_fast_iterations = 1000

abbrev pub hkdf_context_encryption : String
hkdf_context_encryption = "goud_chain_encryption_v2"

abbrev pub hkdf_context_mac : String
hkdf_context_mac = "goud_chain_mac_v2"

-- Audit log
abbrev pub audit_label_prefix : String
audit_label_prefix = "AUDIT:"

abbrev pub audit_ip_hash_length : ℕ
audit_ip_hash_length = 8

-- Sessions
abbrev pub api_key_size_bytes : ℕ
api_key_size_bytes = 32

abbrev pub hkdf_context_session_encryption : String
hkdf_context_session_encryption = "goud_chain_session_aes_v1"

abbrev pub session_expiry_seconds : ℤ
session_expiry_seconds = pos 3600

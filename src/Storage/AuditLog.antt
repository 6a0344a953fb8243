-- ===== src/Storage/AuditLog.antt =====
-- src/storage/audit_log.rs: events are put down for their account, sealed in batches as collections of
-- the chain, and found again. Locks, logging and the callbacks are left out.
pub mod Flush
pub mod Recorded
pub mod Collected
pub mod Flushed
pub mod Found
pub mod Query
pub mod Pages
pub mod Select
use goud_chain.Prelude.{
  ℕ, zero, suc, ◌+◌, ◌%◌, ◌^◌, ℤ, String, ◌+++◌, StrMap, lookup, insert, unwrap_or, List, [], ◌∷◌,
  ◌++◌, length, Bool, true, false, Option, none, some, if◌then◌else◌,
}
use goud_chain.Errors.{Result, ok, err, panic, ◌>>=◌, or_panic}
use goud_chain.Constants.{audit_ip_hash_length}
use goud_chain.Crypto.Externals.{Externals, Bytes, as_bytes}
use goud_chain.Crypto.Hkdf.{hash_api_key_hex}
use goud_chain.Storage.AuditTypes.{AuditEventType, AuditLogEntry}

-- `text[..n]` of a text of single bytes, which panics where the text is shorter.
unfoldable pub first_chars : ℕ → String → Option String
first_chars zero s = some ""
first_chars (suc n) String.[] = none
first_chars (suc n) (String.◌∷◌ c s) = elim (first_chars n s) [
  | none ↦ none
  | some t ↦ some (String.◌∷◌ c t)
]

unfoldable pub hash_ip_truncated : Externals → String → Result String
unfolding first_chars
hash_ip_truncated x ip =
    or_panic (first_chars audit_ip_hash_length (x.hex_encode (x.sha256 (as_bytes ip))))

pub record AuditLogger (Value : Type 0) : Type 0 where
  pub pending_logs : StrMap (List (AuditLogEntry Value))
  pub api_key_cache : StrMap Bytes

-- `if !cache.contains_key(&account_hash) { cache.insert(..) }`
abbrev pub cache_if_absent : String → Bytes → Option Bytes → StrMap Bytes → StrMap Bytes
cache_if_absent account_hash api_key none cache = insert account_hash api_key cache
cache_if_absent account_hash api_key (some old) cache = cache

module _ {Value : Type 0} where
  -- `pending.entry(account_hash).or_default().push(entry)`
  abbrev pub push_entry :
      String
      → AuditLogEntry Value
      → StrMap (List (AuditLogEntry Value))
      → StrMap (List (AuditLogEntry Value))
  push_entry account_hash entry pending =
      insert account_hash (unwrap_or [] (lookup account_hash pending) ++ entry ∷ []) pending

  abbrev pub new_entry : AuditEventType → Option String → String → Value → ℤ → AuditLogEntry Value
  new_entry event_type collection_id ip_hash metadata now = record {
    event_type = event_type;
    timestamp = now;
    collection_id = collection_id;
    ip_hash = ip_hash;
    metadata = metadata;
    invalidated = false;
  }

  -- The key and the entry, under the account.
  abbrev pub put_down : AuditLogger Value → String → Bytes → AuditLogEntry Value → AuditLogger Value
  put_down logger account_hash api_key entry = record {
    api_key_cache =
        cache_if_absent account_hash api_key (lookup account_hash logger.api_key_cache)
          logger.api_key_cache;
    pending_logs = push_entry account_hash entry logger.pending_logs;
  }

  -- The last argument is the clock, in milliseconds. At 50 entries the code writes to the log alone.
  unfoldable pub log :
      Externals
      → AuditLogger Value
      → Bytes
      → AuditEventType
      → Option String
      → String
      → Value
      → ℤ
      → Result (AuditLogger Value)
  log x logger api_key event_type collection_id client_ip metadata now = do
    let account_hash = hash_api_key_hex x api_key
    ip_hash ← hash_ip_truncated x client_ip
    ok (
        put_down logger account_hash api_key
          (new_entry event_type collection_id ip_hash metadata now))

-- ===== src/Storage/AuditTypes.antt =====
-- src/types/audit.rs: events, entries, batches, filters and answers of the audit log. The type of JSON
-- values is a parameter.
use goud_chain.Prelude.{ℕ, ◌==◌, ℤ, String, List, Bool, Option, length}

-- `Value` is `serde_json::Value`.
pub data AuditEventType : Type 0 where
  account_created : AuditEventType
  data_submitted : AuditEventType
  data_decrypted : AuditEventType
  data_listed : AuditEventType
  account_login : AuditEventType

-- The number of an event, by `repr(u8)`, and the derived equality.
abbrev pub event_number : AuditEventType → ℕ
event_number account_created = 0
event_number data_submitted = 1
event_number data_decrypted = 2
event_number data_listed = 3
event_number account_login = 4

abbrev pub event_eq : AuditEventType → AuditEventType → Bool
event_eq a b = event_number a == event_number b

-- `Display`
abbrev pub event_name : AuditEventType → String
event_name account_created = "AccountCreated"
event_name data_submitted = "DataSubmitted"
event_name data_decrypted = "DataDecrypted"
event_name data_listed = "DataListed"
event_name account_login = "AccountLogin"

pub record AuditLogEntry (Value : Type 0) : Type 0 where
  pub event_type : AuditEventType
  pub timestamp : ℤ
  pub collection_id : Option String
  pub ip_hash : String
  pub metadata : Value
  pub invalidated : Bool

pub record AuditLogBatch (Value : Type 0) : Type 0 where
  pub entries : List (AuditLogEntry Value)
  pub batch_timestamp : ℤ
  pub entry_count : ℕ

-- `AuditLogBatch::new`, at a time in seconds
abbrev pub new_batch : {Value : Type 0} → List (AuditLogEntry Value) → ℤ → AuditLogBatch Value
new_batch entries now = record {
  entries = entries;
  batch_timestamp = now;
  entry_count = length entries;
}

pub record AuditLogResponse (Value : Type 0) : Type 0 where
  pub logs : List (AuditLogEntry Value)
  pub total : ℕ
  pub page : ℕ
  pub page_size : ℕ
  pub total_pages : ℕ

pub record AuditLogFilter : Type 0 where
  pub event_type : Option AuditEventType
  pub start_ts : Option ℤ
  pub end_ts : Option ℤ
  pub include_invalidated : Bool

-- ===== src/Api/AuditRoute.antt =====
-- src/api/routes/audit.rs: the handler of queries for the audit log.
pub mod Limits
use goud_chain.Prelude.{
  ℕ, ℤ, String, ◌+++◌, str_eq, unwrap_or, List, Bool, false, Option, none, some, inl, inr,
  if◌then◌else◌,
}
use goud_chain.Errors.{Result, ok, err, panic, ◌>>=◌, Fallible, unauthorized}
use goud_chain.Errors.Display.{error_text}
use goud_chain.Crypto.Externals.{Externals, Bytes}
use goud_chain.Domain.Types.{Json}
use goud_chain.Domain.Blockchain.{Blockchain}
use goud_chain.Storage.Codec.{Codec}
use goud_chain.Storage.RocksDb.{RocksDb}
use goud_chain.Storage.AuditTypes.{
  AuditEventType, account_created, data_submitted, data_decrypted, data_listed, account_login,
  AuditLogFilter, AuditLogResponse,
}
use goud_chain.Storage.AuditLog.Query.{AuditReader, min, query_logs}
use goud_chain.Api.Auth.{
  Secrets, Jwt, AuthMethod, api_key, session_token, decrypt_api_key_from_jwt,
  extract_auth_from_headers,
}

-- The parameters of the request. The collection's id is not read.
pub record AuditLogQuery : Type 0 where
  pub event_type : Option String
  pub collection_id : Option String
  pub start_ts : Option ℤ
  pub end_ts : Option ℤ
  pub page : Option ℕ
  pub page_size : Option ℕ

-- The names of the events; another name is no filter.
unfoldable pub parse_event_type : String → Option AuditEventType
parse_event_type s =
    if str_eq s "AccountCreated"
    then some account_created
    else if str_eq s "DataSubmitted"
    then some data_submitted
    else if str_eq s "DataDecrypted"
    then some data_decrypted
    else if str_eq s "DataListed"
    then some data_listed
    else if str_eq s "AccountLogin"
    then some account_login
    else none

-- `and_then`
abbrev pub parse_event_types : Option String → Option AuditEventType
parse_event_types none = none
parse_event_types (some s) = parse_event_type s

unfoldable pub filter_of : AuditLogQuery → AuditLogFilter
filter_of params = record {
  event_type = parse_event_types params.event_type;
  start_ts = params.start_ts;
  end_ts = params.end_ts;
  include_invalidated = false;
}

-- `unwrap_or(50).min(100)`
abbrev pub page_size_of : AuditLogQuery → ℕ
page_size_of params = min (unwrap_or 50 params.page_size) 100

module _ {Value : Type 0} (x : Externals) (jwt : Jwt) (secrets : Secrets) (j : Json) (r : RocksDb)
    (index_codec : Codec (List ℕ)) (get_encryption_key get_mac_key : Bytes → Bytes → Bytes)
    (reader : AuditReader Value) where
  -- A key that cannot be opened is the caller's failure.
  abbrev pub or_unauthorized : Result Bytes → Result Bytes
  or_unauthorized (ok key) = ok key
  or_unauthorized (err e) =
      err (unauthorized ("Failed to decrypt API key from session token: " +++ error_text e))
  or_unauthorized panic = panic

  -- The key itself, or the one in the session's claims.
  abbrev pub key_of : AuthMethod → Result Bytes
  key_of (api_key key) = ok key
  key_of (session_token claims) =
      or_unauthorized (decrypt_api_key_from_jwt x jwt secrets claims.encrypted_api_key)

  unfoldable pub handle_get_audit_logs :
      Option (Fallible String)
      → AuditLogQuery
      → ℤ
      → r.Db
      → Blockchain
      → Result (AuditLogResponse Value)
  unfolding filter_of
  handle_get_audit_logs header params now db blockchain = do
    auth ← extract_auth_from_headers x jwt secrets header now
    key ← key_of auth
    query_logs r index_codec x j get_encryption_key get_mac_key reader db blockchain key
        (filter_of params) (unwrap_or 0 params.page) (page_size_of params)

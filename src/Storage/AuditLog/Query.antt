-- ===== src/Storage/AuditLog/Query.antt =====
-- src/storage/audit_log.rs: the queries and the index of blocks.
use text.Mathlib.Text.{starts_with}
use goud_chain.Prelude.{
  ℕ, zero, suc, ◌+◌, ◌-◌, ◌*◌, ◌/◌, ◌%◌, ◌^◌, ltb, ◌==◌, ℤ, ltb_ℤ, String, ◌+++◌, List, [], ◌∷◌,
  ◌++◌, length, take, drop, get_elem?, any, Bool, true, false, not, ◌&&◌, ◌||◌, Option, none, some,
  inl, inr, if◌then◌else◌,
}
use goud_chain.Errors.{
  Result, ok, err, panic, ◌>>=◌, Fallible, map_err, audit_log_error, rocks_db_error,
}
use goud_chain.Constants.{audit_label_prefix}
use goud_chain.Crypto.Externals.{Externals, Bytes}
use goud_chain.Crypto.Hkdf.{hash_api_key_hex}
use goud_chain.Domain.Types.{EncryptedCollection, Block, Json}
use goud_chain.Domain.Block.{get_collections_by_owner}
use goud_chain.Domain.Blockchain.{Blockchain}
use goud_chain.Domain.Blockchain.Find.{or_empty}
use goud_chain.Domain.Collection.{decrypt_metadata, decrypt_payload}
use goud_chain.Domain.Merkle.{is_empty}
use goud_chain.Storage.Codec.{Codec}
use goud_chain.Storage.RocksDb.{RocksDb, put}
use goud_chain.Storage.AuditTypes.{
  AuditEventType, event_eq, AuditLogEntry, AuditLogBatch, AuditLogFilter, AuditLogResponse,
}

abbrev pub has_type : Option AuditEventType → AuditEventType → Bool
has_type none event_type = true
has_type (some wanted) event_type = event_eq event_type wanted

abbrev pub is_from : Option ℤ → ℤ → Bool
is_from none timestamp = true
is_from (some start_ts) timestamp = not (ltb_ℤ timestamp start_ts)

abbrev pub is_until : Option ℤ → ℤ → Bool
is_until none timestamp = true
is_until (some end_ts) timestamp = not (ltb_ℤ end_ts timestamp)

abbrev pub min : ℕ → ℕ → ℕ
min a b = if ltb a b then a else b

-- `div_ceil` panics at 0.
abbrev pub div_ceil : ℕ → ℕ → Result ℕ
div_ceil a zero = panic
div_ceil a (suc b) = ok (if a % suc b == 0 then a / suc b else a / suc b + 1)

module _ {Value : Type 0} where
  -- The test of `retain`, with its early returns.
  unfoldable pub is_kept : AuditLogFilter → AuditLogEntry Value → Bool
  is_kept filter entry =
      if not filter.include_invalidated && entry.invalidated
      then false
      else if not (has_type filter.event_type entry.event_type)
      then false
      else if not (is_from filter.start_ts entry.timestamp)
      then false
      else is_until filter.end_ts entry.timestamp

  unfoldable pub retain :
      (AuditLogEntry Value → Bool) → List (AuditLogEntry Value) → List (AuditLogEntry Value)
  retain test [] = []
  retain test (e ∷ es) = let rest = retain test es in if test e then e ∷ rest else rest

  -- `sort_by` is stable: an entry goes before the first one that is not newer.
  unfoldable pub insert_newest :
      AuditLogEntry Value → List (AuditLogEntry Value) → List (AuditLogEntry Value)
  insert_newest e [] = e ∷ []
  insert_newest e (n ∷ ns) =
      let rest = insert_newest e ns in
      if ltb_ℤ e.timestamp n.timestamp then n ∷ rest else e ∷ n ∷ ns

  unfoldable pub sort_newest : List (AuditLogEntry Value) → List (AuditLogEntry Value)
  unfolding insert_newest
  sort_newest [] = []
  sort_newest (e ∷ es) = insert_newest e (sort_newest es)

  -- `entries[start..end]`, which panics where the end is before the start or after the last entry.
  abbrev pub slice : ℕ → ℕ → List (AuditLogEntry Value) → Result (List (AuditLogEntry Value))
  slice first end entries =
      if ltb end first || ltb (length entries) end
      then panic
      else ok (take (end - first) (drop first entries))

  unfoldable pub paginate : List (AuditLogEntry Value) → ℕ → ℕ → Result (AuditLogResponse Value)
  paginate entries page page_size = do
    let total = length entries
    total_pages ← div_ceil total page_size
    let start_idx = page * page_size % 2 ^ 64
    let end_idx = min ((start_idx + page_size) % 2 ^ 64) total
    logs ← if ltb start_idx total then slice start_idx end_idx entries else ok []
    ok (record {
      logs = logs;
      total = total;
      page = page;
      page_size = page_size;
      total_pages = total_pages;
    })

  -- The entries that match, newest first.
  unfoldable pub select : AuditLogFilter → List (AuditLogEntry Value) → List (AuditLogEntry Value)
  unfolding is_kept retain sort_newest
  select filter entries = sort_newest (retain (is_kept filter) entries)

-- The numbers from the second on.
abbrev pub count_up : ℕ → ℕ → List ℕ
count_up zero from = []
count_up (suc left) from = from ∷ count_up left (suc from)

-- `serde_json::from_str` at a value and at a batch, and `value["label"].as_str()`.
pub record AuditReader (Value : Type 0) : Type 0 where
  pub value_from_str : String → Fallible Value
  pub label : Value → Option String
  pub batch_from_str : String → Fallible (AuditLogBatch Value)

module _ (r : RocksDb) (index_codec : Codec (List ℕ)) where
  abbrev pub index_key : String → String
  index_key account_hash = "audit_index:" +++ account_hash

  abbrev pub read_index : Fallible (Option Bytes) → Result (List ℕ)
  read_index (inr (some bytes)) =
      map_err (λ e. audit_log_error ("Failed to deserialize index: " +++ e))
        (index_codec.deserialize bytes)
  read_index (inr none) = ok []
  read_index (inl e) = err (rocks_db_error e)

  unfoldable pub get_audit_block_indexes : r.Db → String → Result (List ℕ)
  get_audit_block_indexes db account_hash = read_index (r.get db (index_key account_hash))

  -- The program has this, but does not call it.
  unfoldable pub update_audit_index : r.Db → String → ℕ → Result r.Db
  update_audit_index db account_hash block_index = do
    indexes ← read_index (r.get db (index_key account_hash))
    if any (λ i. i == block_index) indexes
        then ok db
        else map_err (λ e. audit_log_error ("Failed to serialize index: " +++ e))
            (index_codec.serialize (indexes ++ block_index ∷ []))
          >>= λ serialized.
              map_err rocks_db_error (r.write db (put (index_key account_hash) serialized ∷ []))

  module _ {Value : Type 0} (x : Externals) (j : Json)
      (get_encryption_key get_mac_key : Bytes → Bytes → Bytes) (reader : AuditReader Value) where
    -- A payload that is not opened or not parsed is passed over.
    abbrev pub entries_in : Result String → List (AuditLogEntry Value)
    entries_in (ok payload) = elim (reader.batch_from_str payload) [
      | inr batch ↦ batch.entries
      | inl e ↦ []
    ]
    entries_in _ = []

    -- `label.starts_with(AUDIT_LABEL_PREFIX)`, where the metadata is opened and has a label.
    abbrev pub is_audit : Result Value → Bool
    is_audit (ok metadata) = elim (reader.label metadata) [
      | some label ↦ starts_with label audit_label_prefix
      | none ↦ false
    ]
    is_audit _ = false

    unfoldable pub collection_entries : Bytes → EncryptedCollection → List (AuditLogEntry Value)
    collection_entries api_key c =
        if is_audit
          (decrypt_metadata x get_encryption_key get_mac_key reader.value_from_str c api_key)
        then entries_in (decrypt_payload x get_encryption_key get_mac_key c api_key)
        else []

    unfoldable pub collections_entries :
        Bytes → List EncryptedCollection → List (AuditLogEntry Value)
    unfolding collection_entries
    collections_entries api_key [] = []
    collections_entries api_key (c ∷ cs) =
        collection_entries api_key c ++ collections_entries api_key cs

    -- The blocks at some indexes; what cannot be read and what lies outside of the chain is passed over.
    unfoldable pub scan : Bytes → List Block → List ℕ → List (AuditLogEntry Value)
    unfolding collections_entries
    scan api_key chain [] = []
    scan api_key chain (index ∷ rest) = elim (get_elem? chain index) [
      | some block ↦
          collections_entries api_key (or_empty x j (get_collections_by_owner x j block api_key))
          ++ scan api_key chain rest
      | none ↦ scan api_key chain rest
    ]

    abbrev pub indexes_to_scan : List Block → List ℕ → List ℕ
    indexes_to_scan chain block_indexes =
        if is_empty block_indexes then count_up (length chain) 0 else block_indexes

    unfoldable pub query_logs :
        r.Db → Blockchain → Bytes → AuditLogFilter → ℕ → ℕ → Result (AuditLogResponse Value)
    unfolding scan select paginate get_audit_block_indexes
    query_logs db blockchain api_key filter page page_size = do
      block_indexes ← get_audit_block_indexes db (hash_api_key_hex x api_key)
      let all_entries =
          scan api_key blockchain.chain (indexes_to_scan blockchain.chain block_indexes)
      paginate (select filter all_entries) page page_size

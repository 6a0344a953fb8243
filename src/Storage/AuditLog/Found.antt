-- ===== src/Storage/AuditLog/Found.antt =====
-- An entry that was put down is found after the flush (src/storage/audit_log.rs).
use goud_chain.Prelude.{
  ℕ, ℤ, String, ◌+++◌, StrMap, lookup, unwrap_or, List, [], ◌∷◌, ◌++◌, length, inl, inr, ◌≡◌, refl,
  sym, Option, some,
}
use goud_chain.Errors.{ok, Fallible, map_err, map_err-eq-ok, >>=-eq-ok, ok_injective}
use goud_chain.Constants.{audit_label_prefix, encryption_salt}
use goud_chain.Crypto.Encryption.{decrypt_data_with_key}
use goud_chain.Crypto.Externals.{Externals, Bytes, as_bytes}
use goud_chain.Crypto.Hkdf.{hash_api_key_hex}
use goud_chain.Domain.Types.{EncryptedCollection, Block, Json}
use goud_chain.Domain.Collection.{Signing, decrypt_payload, decrypt_metadata}
use goud_chain.Domain.Collection.Opened.{new_collection-IsOpened}
use goud_chain.Domain.Envelope.RoundTrip.{Decrypts}
use goud_chain.Domain.Blockchain.{Blockchain}
use goud_chain.Domain.Blockchain.Add.Keeps.{ReadsBack}
use goud_chain.Storage.Codec.{Codec}
use goud_chain.Storage.RocksDb.{RocksDb}
use goud_chain.Storage.AuditTypes.{AuditEventType, AuditLogEntry, AuditLogBatch, new_batch}
use goud_chain.Storage.AuditLog.{hash_ip_truncated, AuditLogger, new_entry, put_down, log}
use goud_chain.Storage.AuditLog.Flush.{
  Batch, collect_batches, FlushDraws, seal_batch, flush_all_batches,
}
use goud_chain.Storage.AuditLog.Recorded.{IsIn, IsIn-right, recorded}
use goud_chain.Storage.AuditLog.Query.{AuditReader, collection_entries, entries_in}
use goud_chain.Storage.AuditLog.Collected.{
  lookup-insert, IsIn-collect_batches, cached-put_down, is_empty-concat, is_empty-insert,
}
use goud_chain.Storage.AuditLog.Flushed.{flush_batches-records, seal}

-- `serde_json` reads the texts that it writes, as batches and as values with the label.
pub record SerdeLaws {Value : Type 0} (x : Externals)
    (metadata_to_string : String → ℤ → Fallible String)
    (batch_to_string : AuditLogBatch Value → Fallible String) (reader : AuditReader Value)
    : Type 0 where
  pub batch_text :
      (b : AuditLogBatch Value) (s : String)
      → batch_to_string b ≡ inr s
      → x.from_utf8 (as_bytes s) ≡ inr s
  pub batch_read :
      (b : AuditLogBatch Value) (s : String)
      → batch_to_string b ≡ inr s
      → reader.batch_from_str s ≡ inr b
  pub metadata_text :
      (label : String) (t : ℤ) (s : String)
      → metadata_to_string label t ≡ inr s
      → x.from_utf8 (as_bytes s) ≡ inr s
  pub metadata_read :
      (label : String) (t : ℤ) (s : String)
      → metadata_to_string label t ≡ inr s
      → (v : Value) × (reader.value_from_str s ≡ inr v) × (reader.label v ≡ some label)

module _ {Value : Type 0} (x : Externals) (j : Json) (r : RocksDb) (codec : Codec Block)
    (index_codec : Codec (List ℕ)) (get_encryption_key get_mac_key : Bytes → Bytes → Bytes)
    (signing : Signing) (metadata_to_string : String → ℤ → Fallible String)
    (batch_to_string : AuditLogBatch Value → Fallible String)
    (node_signing_key : Option signing.SigningKey) (reads_back : ReadsBack x j)
    (decrypts : Decrypts x) (reader : AuditReader Value)
    (serde : SerdeLaws x metadata_to_string batch_to_string reader) where
  -- A sealed batch is its owner's, who reads its entries.
  record IsReadable (draws : FlushDraws signing.SigningKey) (batch : Batch Value)
      (c : EncryptedCollection) : Type 0 where
    owner : c.owner_api_key_hash ≡ batch.0
    entries :
        collection_entries r index_codec x j get_encryption_key get_mac_key reader batch.2 c
        ≡ batch.1

  audit_entries :
      (c : EncryptedCollection) (api_key : Bytes) (metadata text : String) (v : Value)
      (batch : AuditLogBatch Value)
      → decrypt_data_with_key x c.encrypted_metadata
          (get_encryption_key api_key (as_bytes encryption_salt))
        ≡ ok metadata
      → reader.value_from_str metadata ≡ inr v
      → reader.label v ≡ some (audit_label_prefix +++ "Batch")
      → decrypt_payload x get_encryption_key get_mac_key c api_key ≡ ok text
      → reader.batch_from_str text ≡ inr batch
      → collection_entries r index_codec x j get_encryption_key get_mac_key reader api_key c
        ≡ batch.entries
  unfolding collection_entries decrypt_metadata
  audit_entries c api_key metadata text v batch opened parsed labelled payload read =
      rw (opened, parsed, labelled, payload, entries_in, read) refl

  seal_batch-IsReadable :
      (draws : FlushDraws signing.SigningKey) (h : String) (entries : List (AuditLogEntry Value))
      (api_key : Bytes) (c : EncryptedCollection)
      → length draws.collection.payload_nonce ≡ 12
      → length draws.collection.metadata_nonce ≡ 12
      → seal x j r codec get_encryption_key get_mac_key signing metadata_to_string batch_to_string
          node_signing_key reads_back draws
          (h, entries, api_key)
        ≡ ok c
      → IsReadable draws (h, entries, api_key) c
  unfolding seal_batch
  seal_batch-IsReadable draws h entries api_key c l l' sealed =
      let batch = new_batch entries draws.batch_timestamp in
      let (text, w, made) = >>=-eq-ok (map_err _ (batch_to_string batch)) _ sealed in
      let written = map_err-eq-ok _ (batch_to_string batch) w in
      let opened =
        new_collection-IsOpened x get_encryption_key get_mac_key signing decrypts metadata_to_string
          draws.collection (audit_label_prefix +++ "Batch") text api_key h _ c l l'
          (serde.batch_text batch text written)
          (λ s. serde.metadata_text (audit_label_prefix +++ "Batch") draws.collection.created_at s)
          made in
      let (v, parsed, labelled) =
        serde.metadata_read (audit_label_prefix +++ "Batch") draws.collection.created_at
          opened.metadata opened.metadata_written in
      record {
        owner = opened.owner;
        entries =
            audit_entries c api_key opened.metadata text v batch opened.metadata_opened parsed
              labelled opened.payload_opened (serde.batch_read batch text written);
      }

  -- What an entry that was put down leaves to the flush.
  put_down-IsIn :
      (drain : StrMap (List (AuditLogEntry Value)) → List (String × List (AuditLogEntry Value)))
      (logger : AuditLogger Value) (h : String) (api_key : Bytes) (entry : AuditLogEntry Value)
      → ((m : StrMap (List (AuditLogEntry Value))) (k : String) (es : List (AuditLogEntry Value))
          → lookup k m ≡ some es
          → IsIn (k, es) (drain m))
      → ((k : Bytes) → lookup h logger.api_key_cache ≡ some k → k ≡ api_key)
      → IsIn
          (h, unwrap_or [] (lookup h logger.pending_logs) ++ entry ∷ [], api_key)
          (collect_batches
            (put_down logger h api_key entry).api_key_cache
            (drain (put_down logger h api_key entry).pending_logs))
  put_down-IsIn drain logger h api_key entry drains coherent =
      let before = unwrap_or [] (lookup h logger.pending_logs) in
      let pending = (put_down logger h api_key entry).pending_logs in
      IsIn-collect_batches (put_down logger h api_key entry).api_key_cache (drain pending) h
        (before ++ entry ∷ []) api_key
        (drains pending h (before ++ entry ∷ [])
          (lookup-insert h (before ++ entry ∷ []) logger.pending_logs))
        (is_empty-concat before entry) (cached-put_down logger h api_key entry coherent)

  -- An event is put down, and the flush that follows returns without an error: then the node has a
  -- collection of the account's, in a block or pending, in which a query with the API key reads the
  -- entry of the event, whatever else was put down before and in whatever order the batches are
  -- drained. Asked are that `drain` gives every entry of the map, nonces of 12 bytes, that no other key
  -- is cached under the account's hash, that encryption, base64 and containers are read back, and that
  -- `serde_json` reads the batches and labels that it writes.
  pub flush_all_batches-log :
      (drain : StrMap (List (AuditLogEntry Value)) → List (String × List (AuditLogEntry Value)))
      (draws : ℕ → FlushDraws signing.SigningKey) (logger logger' : AuditLogger Value)
      (node : Blockchain × r.Db) (api_key : Bytes) (event_type : AuditEventType)
      (collection_id : Option String) (client_ip ip_hash : String) (metadata : Value) (now : ℤ)
      → ((m : StrMap (List (AuditLogEntry Value))) (k : String) (es : List (AuditLogEntry Value))
          → lookup k m ≡ some es
          → IsIn (k, es) (drain m))
      → ((i : ℕ) → length (draws i).collection.payload_nonce ≡ 12)
      → ((i : ℕ) → length (draws i).collection.metadata_nonce ≡ 12)
      → ((k : Bytes)
          → lookup (hash_api_key_hex x api_key) logger.api_key_cache ≡ some k
          → k ≡ api_key)
      → hash_ip_truncated x client_ip ≡ ok ip_hash
      → log x logger api_key event_type collection_id client_ip metadata now ≡ ok logger'
      → (flush_all_batches x j r codec get_encryption_key get_mac_key signing metadata_to_string
          batch_to_string node_signing_key drain draws
          (logger', node)).0
        ≡ ok tt
      → (c : EncryptedCollection) × IsIn c (
          recorded x j
            (flush_all_batches x j r codec get_encryption_key get_mac_key signing metadata_to_string
              batch_to_string node_signing_key drain draws
              (logger', node)).1.1.0
            api_key)
        × IsIn
            (new_entry event_type collection_id ip_hash metadata now)
            (collection_entries r index_codec x j get_encryption_key get_mac_key reader api_key c)
  unfolding log flush_all_batches
  flush_all_batches-log drain draws logger logger' node api_key event_type collection_id client_ip
        ip_hash metadata now drains l l' coherent hashed logged flushed =
      let h = hash_api_key_hex x api_key in
      let entry = new_entry event_type collection_id ip_hash metadata now in
      let before = unwrap_or [] (lookup h logger.pending_logs) in
      let put : put_down logger h api_key entry ≡ logger' = ok_injective (rw hashed at logged) in
      let waiting = put_down-IsIn drain logger h api_key entry drains coherent in
      let filled = is_empty-insert h (before ++ entry ∷ []) logger.pending_logs in
      let flushed' = rw (sym put, filled) at flushed in
      let (k, c, sealed, held) =
        flush_batches-records x j r codec get_encryption_key get_mac_key signing metadata_to_string
          batch_to_string node_signing_key reads_back api_key draws 0 _
          (h, before ++ entry ∷ [], api_key) node
          (λ i d s.
            (seal_batch-IsReadable (draws i) h (before ++ entry ∷ []) api_key d (l i) (l' i)
              s).owner)
          waiting flushed' in
      let readable =
        seal_batch-IsReadable (draws k) h (before ++ entry ∷ []) api_key c (l k) (l' k) sealed in
      (
        c,
        rw (sym put, filled) held,
        rw (readable.entries) (IsIn-right entry before (entry ∷ []) (inl refl)),
      )

-- ===== src/Storage/AuditLog/Flush.antt =====
-- src/storage/audit_log.rs: the batches become collections, and blocks where it is the node's turn.
use goud_chain.Prelude.{
  ℕ, suc, ◌+◌, ◌%◌, ◌^◌, ℤ, String, ◌+++◌, StrMap, lookup, List, [], ◌∷◌, length, Bool, true, false,
  Option, none, some, if◌then◌else◌,
}
use goud_chain.Errors.{Result, ok, err, panic, ◌>>=◌ as ◌>>=ᵣ◌, Fallible, map_err, audit_log_error}
use goud_chain.Constants.{audit_label_prefix}
use goud_chain.Config.{is_node_authorized}
use goud_chain.Crypto.Externals.{Externals, Bytes}
use goud_chain.Domain.Types.{EncryptedCollection, Block, Json}
use goud_chain.Domain.Collection.{Signing, CollectionDraws, new_collection}
use goud_chain.Domain.Merkle.{is_empty}
use goud_chain.Domain.Blockchain.{Blockchain}
use goud_chain.Domain.Blockchain.Add.{Draws, add_collection, add_block}
use goud_chain.Storage.Action.{Action, pure, lift, ◌>>=◌, ◌>>◌}
use goud_chain.Storage.Codec.{Codec}
use goud_chain.Storage.RocksDb.{RocksDb}
use goud_chain.Storage.BlockchainStore.{save_block}
use goud_chain.Storage.AuditTypes.{AuditLogEntry, AuditLogBatch, new_batch}
use goud_chain.Storage.AuditLog.{AuditLogger}

-- An account's hash, its entries and its key.
abbrev pub Batch : Type 0 → Type 0
Batch Value = String × List (AuditLogEntry Value) × Bytes

module _ {Value : Type 0} where
  -- `continue` where there are no entries or no key.
  abbrev pub keep_batch :
      String → List (AuditLogEntry Value) → Option Bytes → List (Batch Value) → List (Batch Value)
  keep_batch account_hash entries none rest = rest
  keep_batch account_hash entries (some api_key) rest = (account_hash, entries, api_key) ∷ rest

  -- The loop over what `drain` gives.
  unfoldable pub collect_batches :
      StrMap Bytes → List (String × List (AuditLogEntry Value)) → List (Batch Value)
  collect_batches cache [] = []
  collect_batches cache ((account_hash, entries) ∷ others) =
      let rest = collect_batches cache others in
      if is_empty entries
      then rest
      else keep_batch account_hash entries (lookup account_hash cache) rest

-- What the flush of a batch takes from the clocks and the random generators; `generated` is the key that
-- is made where the node has none.
pub record FlushDraws (Key : Type 0) : Type 0 where
  pub batch_timestamp : ℤ
  pub generated : Key
  pub collection : CollectionDraws
  pub block : Draws

module _ {Value : Type 0} (x : Externals) (j : Json) (r : RocksDb) (codec : Codec Block)
    (get_encryption_key get_mac_key : Bytes → Bytes → Bytes) (signing : Signing)
    (metadata_to_string : String → ℤ → Fallible String)
    (batch_to_string : AuditLogBatch Value → Fallible String)
    (node_signing_key : Option signing.SigningKey) where
  -- The node's chain and its database.
  abbrev pub NodeState : Type 0
  NodeState = Blockchain × r.Db

  abbrev pub key_or : signing.SigningKey → Option signing.SigningKey → signing.SigningKey
  key_or generated none = generated
  key_or generated (some key) = key

  unfoldable pub seal_batch :
      FlushDraws signing.SigningKey → Batch Value → Result EncryptedCollection
  seal_batch draws (account_hash, entries, api_key) =
      map_err (λ e. audit_log_error ("Failed to serialize batch: " +++ e))
        (batch_to_string (new_batch entries draws.batch_timestamp))
      >>=ᵣ λ batch_json.
          new_collection x get_encryption_key get_mac_key signing metadata_to_string
            draws.collection (audit_label_prefix +++ "Batch") batch_json api_key account_hash
            (key_or draws.generated node_signing_key)

  -- A block that cannot be saved is only reported.
  abbrev pub db_after : r.Db → Result r.Db → r.Db
  db_after db (ok db') = db'
  db_after db _ = db

  -- A block that cannot be made is only reported, whatever the error.
  abbrev pub after_block : r.Db → Result Block × Blockchain → Result (Unit {0}) × NodeState
  after_block db (ok block, bc) = (ok tt, (bc, db_after db (save_block r codec db block)))
  after_block db (err e, bc) = (ok tt, (bc, db))
  after_block db (panic, bc) = (panic, (bc, db))

  unfoldable pub make_block : FlushDraws signing.SigningKey → Action NodeState (Unit {0})
  make_block draws (bc, db) = after_block db (add_block x j get_encryption_key bc draws.block)

  -- `chain.len() + 1`
  abbrev pub next_block_number : Blockchain → ℕ
  next_block_number bc = (length bc.chain + 1) % 2 ^ 64

  abbrev pub make_block_if : FlushDraws signing.SigningKey → Bool → Action NodeState (Unit {0})
  make_block_if draws true = make_block draws
  make_block_if draws false = pure tt

  unfoldable pub flush_batch :
      FlushDraws signing.SigningKey → Batch Value → Action NodeState (Unit {0})
  unfolding seal_batch make_block
  flush_batch draws batch = lift (seal_batch draws batch) >>= λ collection (bc, db).
      let bc' = add_collection bc collection in
      (lift (is_node_authorized bc'.validator_config bc'.node_id (next_block_number bc'))
          >>= make_block_if draws)
        (bc', db)

  -- The loop over the batches: the first error ends it.
  unfoldable pub flush_batches :
      (ℕ → FlushDraws signing.SigningKey) → ℕ → List (Batch Value) → Action NodeState (Unit {0})
  unfolding flush_batch
  flush_batches draws i [] = pure tt
  flush_batches draws i (batch ∷ rest) =
      flush_batch (draws i) batch >> flush_batches draws (suc i) rest

  -- `drain` gives the entries of the map in some order. They are gone from the map whatever follows.
  unfoldable pub flush_all_batches :
      (StrMap (List (AuditLogEntry Value)) → List (String × List (AuditLogEntry Value)))
      → (ℕ → FlushDraws signing.SigningKey)
      → AuditLogger Value × NodeState
      → Result (Unit {0}) × (AuditLogger Value × NodeState)
  unfolding collect_batches flush_batches
  flush_all_batches drain draws (logger, node) =
      let batches = collect_batches logger.api_key_cache (drain logger.pending_logs) in
      let (answer, node') = flush_batches draws 0 batches node in
      if is_empty logger.pending_logs
      then (ok tt, (logger, node))
      else (answer, (record logger { pending_logs = [] }, node'))

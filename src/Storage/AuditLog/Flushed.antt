-- ===== src/Storage/AuditLog/Flushed.antt =====
-- The collection of a batch stays with the node through the flush (src/storage/audit_log.rs).
use goud_chain.Prelude.{ℕ, suc, ℤ, String, List, [], ◌∷◌, inl, inr, ◌≡◌, Option, Bool, true, false}
use goud_chain.Errors.{Result, ok, err, panic, Fallible}
use goud_chain.Config.{is_node_authorized}
use goud_chain.Crypto.Externals.{Externals, Bytes}
use goud_chain.Crypto.Hkdf.{hash_api_key_hex}
use goud_chain.Domain.Types.{EncryptedCollection, Block, Json}
use goud_chain.Domain.Collection.{Signing}
use goud_chain.Domain.Blockchain.{Blockchain}
use goud_chain.Domain.Blockchain.Add.{add_collection, add_block}
use goud_chain.Domain.Blockchain.Add.Keeps.{ReadsBack}
use goud_chain.Storage.Action.{Action, lift, ◌>>=◌, Keeps, >>=-Keeps, next-eq-ok}
use goud_chain.Storage.Codec.{Codec}
use goud_chain.Storage.RocksDb.{RocksDb}
use goud_chain.Storage.AuditTypes.{AuditLogBatch}
use goud_chain.Storage.AuditLog.Flush.{
  Batch, FlushDraws, seal_batch, after_block, make_block, next_block_number, make_block_if,
  flush_batch, flush_batches,
}
use goud_chain.Storage.AuditLog.Recorded.{
  IsIn, recorded, recorded-add_collection, recorded-added, recorded-add_block,
}

module _ {Value : Type 0} (x : Externals) (j : Json) (r : RocksDb) (codec : Codec Block)
    (get_encryption_key get_mac_key : Bytes → Bytes → Bytes) (signing : Signing)
    (metadata_to_string : String → ℤ → Fallible String)
    (batch_to_string : AuditLogBatch Value → Fallible String)
    (node_signing_key : Option signing.SigningKey) (reads_back : ReadsBack x j) where
  -- A collection that the node has for the owner of a key.
  abbrev pub HasRecorded : EncryptedCollection → Bytes → Blockchain × r.Db → Type 0
  HasRecorded c api_key (bc, db) = IsIn c (recorded x j bc api_key)

  make_block-Keeps :
      (c : EncryptedCollection) (api_key : Bytes) (draws : FlushDraws signing.SigningKey)
      → Keeps (HasRecorded c api_key) (
          make_block x j r codec get_encryption_key get_mac_key signing metadata_to_string
            batch_to_string node_signing_key draws)
  unfolding make_block
  make_block-Keeps c api_key draws (bc, db) h =
      go (add_block x j get_encryption_key bc draws.block)
        (recorded-add_block x j get_encryption_key reads_back bc draws.block c api_key h)
    where
      go :
          (answer : Result Block × Blockchain)
          → IsIn c (recorded x j answer.1 api_key)
          → HasRecorded c api_key
              (after_block x j r codec get_encryption_key get_mac_key signing metadata_to_string
                batch_to_string node_signing_key db answer).1
      go (ok b, bc') k = k
      go (err e, bc') k = k
      go (panic, bc') k = k

  make_block_if-Keeps :
      (c : EncryptedCollection) (api_key : Bytes) (draws : FlushDraws signing.SigningKey) (b : Bool)
      → Keeps (HasRecorded c api_key) (
          make_block_if x j r codec get_encryption_key get_mac_key signing metadata_to_string
            batch_to_string node_signing_key draws b)
  make_block_if-Keeps c api_key draws true node h = make_block-Keeps c api_key draws node h
  make_block_if-Keeps c api_key draws false node h = h

  -- The second half of the flush of a batch.
  abbrev take_turn : FlushDraws signing.SigningKey → Action (Blockchain × r.Db) (Unit {0})
  take_turn draws (bc, db) =
      (lift (
            is_node_authorized bc.validator_config bc.node_id (
              next_block_number x j r codec get_encryption_key get_mac_key signing
                metadata_to_string batch_to_string node_signing_key bc))
          >>= make_block_if x j r codec get_encryption_key get_mac_key signing metadata_to_string
              batch_to_string node_signing_key draws)
        (bc, db)

  take_turn-Keeps :
      (c : EncryptedCollection) (api_key : Bytes) (draws : FlushDraws signing.SigningKey)
      → Keeps (HasRecorded c api_key) (take_turn draws)
  take_turn-Keeps c api_key draws (bc, db) h =
      >>=-Keeps (HasRecorded c api_key) (lift _) _ (λ d k. k) (make_block_if-Keeps c api_key draws)
        (bc, db) h

  abbrev pub seal : FlushDraws signing.SigningKey → Batch Value → Result EncryptedCollection
  seal draws batch =
      seal_batch x j r codec get_encryption_key get_mac_key signing metadata_to_string
        batch_to_string node_signing_key draws batch

  abbrev flush_one :
      FlushDraws signing.SigningKey → Batch Value → Action (Blockchain × r.Db) (Unit {0})
  flush_one draws batch =
      flush_batch x j r codec get_encryption_key get_mac_key signing metadata_to_string
        batch_to_string node_signing_key draws batch

  flush_batch-Keeps :
      (c : EncryptedCollection) (api_key : Bytes) (draws : FlushDraws signing.SigningKey)
      (batch : Batch Value)
      → Keeps (HasRecorded c api_key) (flush_one draws batch)
  unfolding flush_batch
  flush_batch-Keeps c api_key draws batch (bc, db) h =
      >>=-Keeps (HasRecorded c api_key) (lift (seal draws batch)) _ (λ n k. k)
        (λ d n k.
          take_turn-Keeps c api_key draws (add_collection (n.0) d, n.1)
            (recorded-add_collection x j (n.0) c d api_key k))
        (bc, db) h

  abbrev pub flush_some :
      (ℕ → FlushDraws signing.SigningKey)
      → ℕ
      → List (Batch Value)
      → Action (Blockchain × r.Db) (Unit {0})
  flush_some draws i batches =
      flush_batches x j r codec get_encryption_key get_mac_key signing metadata_to_string
        batch_to_string node_signing_key draws i batches

  flush_batches-Keeps :
      (c : EncryptedCollection) (api_key : Bytes) (draws : ℕ → FlushDraws signing.SigningKey)
      (i : ℕ) (batches : List (Batch Value))
      → Keeps (HasRecorded c api_key) (flush_some draws i batches)
  unfolding flush_batches
  flush_batches-Keeps c api_key draws i [] node h = h
  flush_batches-Keeps c api_key draws i (batch ∷ rest) node h =
      >>=-Keeps (HasRecorded c api_key) (flush_one (draws i) batch) _
        (flush_batch-Keeps c api_key (draws i) batch)
        (λ _. flush_batches-Keeps c api_key draws (suc i) rest) node h

  flush_batch-records :
      (api_key : Bytes) (draws : FlushDraws signing.SigningKey) (batch : Batch Value)
      (node : Blockchain × r.Db)
      → ((c : EncryptedCollection)
          → seal draws batch ≡ ok c
          → c.owner_api_key_hash ≡ hash_api_key_hex x api_key)
      → (flush_one draws batch node).0 ≡ ok tt
      → (c : EncryptedCollection) × (seal draws batch ≡ ok c)
        × HasRecorded c api_key (flush_one draws batch node).1
  unfolding flush_batch
  flush_batch-records api_key draws batch (bc, db) owns h =
      let (c, sealed, e) = next-eq-ok (lift (seal draws batch) (bc, db)) _ h in
      (
        c,
        sealed,
        rw e (
            take_turn-Keeps c api_key draws (add_collection bc c, db)
              (recorded-added x j bc c api_key (owns c sealed))),
      )

  -- Every batch whose collections are the owner's is sealed, and its collection is with the node.
  pub flush_batches-records :
      (api_key : Bytes) (draws : ℕ → FlushDraws signing.SigningKey) (i : ℕ)
      (batches : List (Batch Value)) (batch : Batch Value) (node : Blockchain × r.Db)
      → ((k : ℕ) (c : EncryptedCollection)
          → seal (draws k) batch ≡ ok c
          → c.owner_api_key_hash ≡ hash_api_key_hex x api_key)
      → IsIn batch batches
      → (flush_some draws i batches node).0 ≡ ok tt
      → (k : ℕ) × (c : EncryptedCollection) × (seal (draws k) batch ≡ ok c)
        × HasRecorded c api_key (flush_some draws i batches node).1
  unfolding flush_batches
  flush_batches-records api_key draws i [] batch node owns m h = absurd m
  flush_batches-records api_key draws i (first ∷ rest) batch node owns (inl same) h =
      let (_, done, e) = next-eq-ok (flush_one (draws i) first node) _ h in
      let (c, sealed, recorded_now) =
        flush_batch-records api_key (draws i) first node (rw same at owns i) done in
      (
        i,
        c,
        rw same sealed,
        rw e (
            flush_batches-Keeps c api_key draws (suc i) rest (flush_one (draws i) first node).1
              recorded_now),
      )
  flush_batches-records api_key draws i (first ∷ rest) batch node owns (inr later) h =
      let (_, done, e) = next-eq-ok (flush_one (draws i) first node) _ h in
      let (k, c, sealed, held) =
        flush_batches-records api_key draws (suc i) rest batch (flush_one (draws i) first node).1
          owns later (rw e at h) in
      (k, c, sealed, rw e held)

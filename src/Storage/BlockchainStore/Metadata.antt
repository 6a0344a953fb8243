-- ===== src/Storage/BlockchainStore/Metadata.antt =====
-- src/storage/blockchain_store.rs: the reading of metadata and checkpoints, and the clearing.
use goud_chain.Prelude.{
  ℕ, zero, suc, ◌+◌, ◌%◌, ◌^◌, String, ◌+++◌, show, inl, inr, List, [], ◌∷◌, Bool, true, false,
  Option, none, some,
}
use goud_chain.Errors.{
  Result, ok, err, panic, ◌>>=◌ as ◌>>=ᵣ◌, Fallible, map_err, or_panic, save_failed, load_failed,
}
use goud_chain.Constants.{checkpoint_interval}
use goud_chain.Crypto.Externals.{Externals, Bytes}
use goud_chain.Storage.Action.{Action, pure, fail, lift, ◌>>=◌, ◌>>◌}
use goud_chain.Storage.Bytes.{from_le_bytes}
use goud_chain.Storage.RocksDb.{RocksDb, delete}
use goud_chain.Storage.BlockchainStore.{block_key}

abbrev pub checkpoint_key : ℕ → String
checkpoint_key index = "checkpoint:" +++ show index

module _ (r : RocksDb) where
  module _ (x : Externals) where
    -- One of the two texts, `unknown` where it is missing.
    abbrev pub read_text : String → Fallible (Option Bytes) → Result String
    read_text name (inr (some bytes)) =
        map_err (λ e. load_failed ("Invalid " +++ name +++ ": " +++ e)) (x.from_utf8 bytes)
    read_text name (inr none) = ok "unknown"
    read_text name (inl e) = err (load_failed ("Failed to read " +++ name +++ ": " +++ e))

    unfoldable pub load_metadata : r.Db → Result (String × String)
    load_metadata db = read_text "node_id" (r.get db "metadata:node_id") >>=ᵣ λ node_id.
        read_text "schema_version" (r.get db "metadata:schema_version") >>=ᵣ λ schema_version.
        ok (node_id, schema_version)

    -- A round of the loop: the first checkpoint that is missing ends it.
    abbrev pub next_checkpoint :
        Fallible (Option Bytes) → Result (List String) → Result (List String)
    next_checkpoint (inr (some bytes)) others =
        map_err (λ e. load_failed ("Invalid checkpoint hash: " +++ e)) (x.from_utf8 bytes)
        >>=ᵣ λ hash. others >>=ᵣ λ rest. ok (hash ∷ rest)
    next_checkpoint (inr none) others = ok []
    next_checkpoint (inl e) others = err (load_failed ("Failed to read checkpoint: " +++ e))

    -- The loop, from an index on. The fuel bounds its rounds.
    unfoldable pub load_checkpoints_from : ℕ → r.Db → ℕ → Result (List String)
    load_checkpoints_from zero db index = ok []
    load_checkpoints_from (suc fuel) db index =
        next_checkpoint (r.get db (checkpoint_key index))
          (load_checkpoints_from fuel db ((index + checkpoint_interval) % 2 ^ 64))

    unfoldable pub load_checkpoints : ℕ → r.Db → Result (List String)
    unfolding load_checkpoints_from
    load_checkpoints fuel db = load_checkpoints_from fuel db checkpoint_interval

  -- `unwrap` panics where the database cannot be read.
  abbrev pub is_missing : Fallible (Option Bytes) → Result Bool
  is_missing (inr none) = ok true
  is_missing (inr (some bytes)) = ok false
  is_missing (inl e) = panic

  unfoldable pub is_empty : r.Db → Result Bool
  is_empty db = is_missing (r.get db "metadata:chain_length")

  abbrev pub removed : Fallible r.Db → Action r.Db (Unit {0})
  removed (inl e) db = (err (save_failed e), db)
  removed (inr db') db = (ok tt, db')

  abbrev pub delete_key : String → Action r.Db (Unit {0})
  delete_key key db = removed (r.write db (delete key ∷ [])) db

  -- The blocks from an index on; a failure leaves what was deleted before it deleted.
  unfoldable pub clear_blocks : ℕ → ℕ → Action r.Db (Unit {0})
  clear_blocks zero index = pure tt
  clear_blocks (suc left) index = delete_key (block_key index) >> clear_blocks left (suc index)

  unfoldable pub clear_metadata : Action r.Db (Unit {0})
  clear_metadata =
      delete_key "metadata:chain_length"
      >> (delete_key "metadata:node_id" >> delete_key "metadata:schema_version")

  unfoldable pub clear_counted : Fallible (Option Bytes) → Action r.Db (Unit {0})
  unfolding clear_blocks clear_metadata
  clear_counted (inr (some bytes)) = lift (or_panic (from_le_bytes 8 bytes)) >>= λ chain_length.
      clear_blocks chain_length 0 >> clear_metadata
  clear_counted (inr none) = pure tt
  clear_counted (inl e) = fail (save_failed ("Failed to read chain length: " +++ e))

  unfoldable pub clear_all : Action r.Db (Unit {0})
  unfolding clear_counted
  clear_all db = clear_counted (r.get db "metadata:chain_length") db

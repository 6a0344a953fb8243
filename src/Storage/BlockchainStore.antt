-- ===== src/Storage/BlockchainStore.antt =====
-- src/storage/blockchain_store.rs: blocks, checkpoints and metadata under their keys.
pub mod Metadata
pub mod Described
pub mod Checkpoints
pub mod Held
pub mod Saved
use goud_chain.Prelude.{
  ℕ, zero, suc, ◌+◌, ◌%◌, ◌^◌, String, ◌+++◌, show, inl, inr, List, [], ◌∷◌, Option, none, some,
}
use goud_chain.Errors.{
  Result, ok, err, ◌>>=◌, Fallible, map_err, or_panic, save_failed, load_failed,
}
use goud_chain.Crypto.Externals.{Bytes, as_bytes}
use goud_chain.Domain.Types.{Block}
use goud_chain.Storage.Bytes.{to_le_bytes, from_le_bytes}
use goud_chain.Storage.Codec.{Codec}
use goud_chain.Storage.RocksDb.{RocksDb, put}

abbrev pub block_key : ℕ → String
block_key index = "block:" +++ show index

module _ (r : RocksDb) (codec : Codec Block) where
  -- The block and the chain's length go into one batch.
  unfoldable pub save_block : r.Db → Block → Result r.Db
  save_block db block = do
    block_bytes ←
        map_err (λ e. save_failed ("Bincode serialization: " +++ e)) (codec.serialize block)
    let chain_length = (block.index + 1) % 2 ^ 64
    map_err save_failed (
        r.write db (
          put (block_key block.index) block_bytes
          ∷ put "metadata:chain_length" (to_le_bytes 8 chain_length)
          ∷ []))

  unfoldable pub save_checkpoint : r.Db → ℕ → String → Result r.Db
  save_checkpoint db block_index block_hash =
      map_err save_failed
        (r.write db (put ("checkpoint:" +++ show block_index) (as_bytes block_hash) ∷ []))

  -- `map_err(SaveFailed)?` in a method that goes on with the database.
  abbrev pub then_write :
      Fallible r.Db → r.Db → (r.Db → Result (Unit {0}) × r.Db) → Result (Unit {0}) × r.Db
  then_write (inl e) db next = (err (save_failed e), db)
  then_write (inr db') db next = next db'

  -- Two writes: the first stays if the second fails.
  unfoldable pub save_metadata : r.Db → String → String → Result (Unit {0}) × r.Db
  save_metadata db node_id schema_version =
      then_write (r.write db (put "metadata:node_id" (as_bytes node_id) ∷ [])) db λ db'.
        then_write (r.write db' (put "metadata:schema_version" (as_bytes schema_version) ∷ [])) db'
          λ db''. (ok tt, db'')

  unfoldable pub read_block : ℕ → Fallible (Option Bytes) → Result Block
  read_block index (inr (some bytes)) =
      map_err (λ e. load_failed ("Bincode deserialization: " +++ e)) (codec.deserialize bytes)
  read_block index (inr none) = err (load_failed ("Missing block at index " +++ show index))
  read_block index (inl e) =
      err (load_failed ("Failed to read block " +++ show index +++ ": " +++ e))

  -- `for index in 0..chain_length`: the blocks from `index` on.
  unfoldable pub load_blocks : r.Db → ℕ → ℕ → Result (List Block)
  unfolding read_block
  load_blocks db zero index = ok []
  load_blocks db (suc left) index = do
    block ← read_block index (r.get db (block_key index))
    rest ← load_blocks db left (suc index)
    ok (block ∷ rest)

  unfoldable pub load_length : r.Db → Fallible (Option Bytes) → Result (List Block)
  unfolding load_blocks from_le_bytes
  load_length db (inr (some bytes)) = do
    chain_length ← or_panic (from_le_bytes 8 bytes)
    load_blocks db chain_length 0
  load_length db (inr none) = ok []
  load_length db (inl e) = err (load_failed ("Failed to read chain length: " +++ e))

  unfoldable pub load_chain : r.Db → Result (List Block)
  unfolding load_length
  load_chain db = load_length db (r.get db "metadata:chain_length")

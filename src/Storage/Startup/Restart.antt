-- ===== src/Storage/Startup/Restart.antt =====
-- A node that starts again finds its chain (src/storage/mod.rs).
use mathlib.Core.Path.{subst}
use mathlib.Core.List.{append-nil, append_assoc}
use goud_chain.Prelude.{
  ℕ, ℤ, ◌+◌, ◌^◌, ◌<◌, String, List, [], ◌∷◌, ◌++◌, suc, length, length-append, All, ◌≡◌, refl, sym,
  ◌∙◌, arith,
}
use goud_chain.Errors.{ok, >>=-eq-ok, ok_injective}
use goud_chain.Constants.{schema_version}
use goud_chain.Config.{ValidatorConfig}
use goud_chain.Crypto.Externals.{Externals}
use goud_chain.Domain.Types.{Block, Json}
use goud_chain.Domain.Blockchain.{Blockchain}
use goud_chain.Storage.Codec.{Codec}
use goud_chain.Storage.RocksDb.{RocksDb, RocksDbLaws, IsReliable}
use goud_chain.Storage.BlockchainStore.{save_block}
use goud_chain.Storage.BlockchainStore.Held.{load_chain-HoldsChain, HoldsBlocks-load_chain}
use goud_chain.Storage.BlockchainStore.Saved.{
  IsStorable, HoldsChain-save_block, HasIndexes, save_blocks, get-save_block,
}
use goud_chain.Storage.BlockchainStore.Described.{IsUtf8}
use goud_chain.Storage.BlockchainStore.Metadata.{load_metadata, load_checkpoints}
use goud_chain.Storage.Startup.{load_blockchain}
use goud_chain.Storage.Startup.Ready.{
  IsReady, resumed, load_blockchain-IsReady, is_empty-HoldsChain, IsReady-load_blockchain,
}

module _ (x : Externals) (j : Json) (r : RocksDb) (codec : Codec Block) where
  module _ (laws : RocksDbLaws r) (reliable : IsReliable r) where
    load_metadata-save_block :
        (d d' : r.Db) (block : Block)
        → IsStorable r laws codec block
        → save_block r codec d block ≡ ok d'
        → load_metadata r x d' ≡ load_metadata r x d
    unfolding load_metadata
    load_metadata-save_block d d' block storable saved =
        let id =
          get-save_block r laws codec reliable d d' block "metadata:node_id" storable
            (λ e. omega (arith, e)) refl saved in
        let version =
          get-save_block r laws codec reliable d d' block "metadata:schema_version" storable
            (λ e. omega (arith, e)) refl saved in
        rw (id, version) refl

    IsReady-save_blocks :
        (d d' : r.Db) (chain blocks : List Block)
        → IsReady x j r codec d chain
        → All (IsStorable r laws codec) blocks
        → HasIndexes r laws codec (length chain) blocks
        → length chain + length blocks < 2 ^ 64
        → save_blocks r laws codec d blocks ≡ ok d'
        → IsReady x j r codec d' (chain ++ blocks)
    unfolding save_blocks
    IsReady-save_blocks d d' chain [] ready storable indexes b saved =
        rw (append-nil chain, sym (ok_injective saved)) ready
    IsReady-save_blocks d d' chain (block ∷ rest) ready (storable, storables) (index, indexes) b
          saved =
        let (d1, first, others) = >>=-eq-ok (save_block r codec d block) _ saved in
        let longer : length (chain ++ block ∷ []) ≡ suc (length chain) =
          omega (arith, length-append chain (block ∷ [])) in
        let held =
          HoldsChain-save_block r laws codec reliable d d1 chain block storable
            (HoldsBlocks-load_chain r laws codec d chain ready.loaded) index (omega arith) first in
        let ready1 : IsReady x j r codec d1 (chain ++ block ∷ []) = record {
          filled = is_empty-HoldsChain x j r codec laws reliable d1 (chain ++ block ∷ []) held;
          stored_id = ready.stored_id;
          metadata = load_metadata-save_block d d1 block storable first ∙ ready.metadata;
          loaded = load_chain-HoldsChain r laws codec d1 (chain ++ block ∷ []) (omega arith) held;
        } in
        subst (IsReady x j r codec d') (append_assoc chain (block ∷ []) rest) (
          IsReady-save_blocks d1 d' (chain ++ block ∷ []) rest ready1 storables (rw longer indexes)
            (omega arith) others)

    -- A node starts, over a database that keeps its laws and does not fail, whatever is in it, and then
    -- saves blocks, with indexes from the length of its chain on and below 2^64. If all these blocks are
    -- written and read back by `bincode`, its id and the schema's version are read back from UTF-8, and
    -- the checkpoints can be loaded, then the node that starts again has the chain with the blocks at its
    -- end, these checkpoints and nothing pending, and the database is left as it was.
    pub load_blockchain-restart :
        (fuel : ℕ) (node_id : String) (validator_config : ValidatorConfig)
        (now jitter now' jitter' : ℤ) (db d' : r.Db) (bc : Blockchain) (blocks : List Block)
        (checkpoints : List String)
        → IsUtf8 x node_id
        → IsUtf8 x schema_version
        → All (IsStorable r laws codec) bc.chain
        → All (IsStorable r laws codec) blocks
        → HasIndexes r laws codec (length bc.chain) blocks
        → length bc.chain + length blocks < 2 ^ 64
        → (load_blockchain x j r codec fuel node_id validator_config now jitter db).0 ≡ ok bc
        → save_blocks r laws codec
            (load_blockchain x j r codec fuel node_id validator_config now jitter db).1
            blocks
          ≡ ok d'
        → load_checkpoints r x fuel d' ≡ ok checkpoints
        → load_blockchain x j r codec fuel node_id validator_config now' jitter' d'
          ≡ (ok (resumed x j r codec node_id validator_config (bc.chain ++ blocks) checkpoints), d')
    load_blockchain-restart fuel node_id validator_config now jitter now' jitter' db d' bc blocks
          checkpoints utf8_id utf8_schema storable storables indexes b started saved read =
        let ready =
          IsReady-load_blockchain x j r codec laws reliable fuel node_id validator_config now jitter
            db bc utf8_id utf8_schema storable started in
        load_blockchain-IsReady x j r codec fuel node_id validator_config now' jitter' d'
          (bc.chain ++ blocks) checkpoints
          (IsReady-save_blocks _ d' bc.chain blocks ready storables indexes b saved) read

-- ===== src/Storage/Startup.antt =====
-- src/storage/mod.rs: the chain that a node starts with, from its database or new.
pub mod Discarded
pub mod Ready
pub mod Restart
use goud_chain.Prelude.{ℕ, ℤ, String, str_eq, List, [], ◌∷◌, Bool, true, false, if◌then◌else◌}
use goud_chain.Errors.{Result, ok, err, panic}
use goud_chain.Constants.{schema_version}
use goud_chain.Config.{ValidatorConfig}
use goud_chain.Crypto.Externals.{Externals}
use goud_chain.Domain.Types.{Block, Json}
use goud_chain.Domain.Blockchain.{Blockchain}
use goud_chain.Domain.Blockchain.Add.{new}
use goud_chain.Storage.Action.{Action, pure, lift, ◌>>=◌, ◌>>◌}
use goud_chain.Storage.Codec.{Codec}
use goud_chain.Storage.RocksDb.{RocksDb}
use goud_chain.Storage.BlockchainStore.{save_block, save_metadata, load_chain}
use goud_chain.Storage.BlockchainStore.Metadata.{
  load_metadata, load_checkpoints, is_empty, clear_all,
}

module _ (x : Externals) (j : Json) (r : RocksDb) (codec : Codec Block) where
  -- `?` on a call that writes in one batch.
  abbrev pub lift_save : Result r.Db → Action r.Db (Unit {0})
  lift_save (ok db') db = (ok tt, db')
  lift_save (err e) db = (err e, db)
  lift_save panic db = (panic, db)

  -- `if let Some(genesis) = blockchain.chain.first()`
  abbrev pub save_first : List Block → Action r.Db (Unit {0})
  save_first [] db = (ok tt, db)
  save_first (genesis ∷ rest) db = lift_save (save_block r codec db genesis) db

  -- A new chain, its first block and the metadata. The two numbers are the clock and the jitter.
  unfoldable pub start_chain : String → ValidatorConfig → ℤ → ℤ → Action r.Db Blockchain
  start_chain node_id validator_config now jitter =
      lift (new x j node_id validator_config now jitter) >>= λ blockchain.
      save_first blockchain.chain
      >> ((λ db. save_metadata r codec db node_id schema_version) >> pure blockchain)

  -- A chain of the present schema; the fuel is that of the loop over the checkpoints.
  unfoldable pub resume_chain : ℕ → String → ValidatorConfig → Action r.Db Blockchain
  resume_chain fuel node_id validator_config db =
      (lift (load_chain r codec db) >>= λ chain.
      lift (load_checkpoints r x fuel db) >>= λ checkpoints. pure (record {
        schema_version = schema_version;
        chain = chain;
        node_id = node_id;
        checkpoints = checkpoints;
        pending_accounts_with_keys = [];
        pending_collections = [];
        validator_config = validator_config;
      }))
        db

  -- What the schema that is stored decides.
  unfoldable pub load_schema :
      ℕ → String → ValidatorConfig → ℤ → ℤ → String → Action r.Db Blockchain
  unfolding resume_chain start_chain
  load_schema fuel node_id validator_config now jitter stored_schema =
      if str_eq stored_schema schema_version
      then resume_chain fuel node_id validator_config
      else clear_all r >> start_chain node_id validator_config now jitter

  unfoldable pub load_existing : ℕ → String → ValidatorConfig → ℤ → ℤ → Action r.Db Blockchain
  unfolding load_schema
  load_existing fuel node_id validator_config now jitter db =
      (lift (load_metadata r x db) >>= λ metadata.
      load_schema fuel node_id validator_config now jitter metadata.1)
        db

  unfoldable pub load_blockchain : ℕ → String → ValidatorConfig → ℤ → ℤ → Action r.Db Blockchain
  unfolding load_existing start_chain
  load_blockchain fuel node_id validator_config now jitter db =
      (lift (is_empty r db) >>= λ empty.
      if empty
      then start_chain node_id validator_config now jitter
      else load_existing fuel node_id validator_config now jitter)
        db

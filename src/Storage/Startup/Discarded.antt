-- ===== src/Storage/Startup/Discarded.antt =====
-- A node that discards a chain of another schema (src/storage/mod.rs).
use goud_chain.Prelude.{ℕ, ℤ, String, str_eq, List, [], ◌∷◌, false, ◌≡◌, refl, ◌∙◌}
use goud_chain.Errors.{Result, ok, err, panic}
use goud_chain.Constants.{schema_version}
use goud_chain.Config.{ValidatorConfig}
use goud_chain.Crypto.Externals.{Externals}
use goud_chain.Domain.Types.{Block, Json}
use goud_chain.Domain.Blockchain.{Blockchain}
use goud_chain.Domain.Blockchain.Add.{new}
use goud_chain.Storage.Action.{pure, lift, Keeps, >>=-Keeps, next-eq-ok}
use goud_chain.Storage.Codec.{Codec}
use goud_chain.Storage.RocksDb.{RocksDb, RocksDbLaws, IsReliable}
use goud_chain.Storage.BlockchainStore.{save_block, save_metadata}
use goud_chain.Storage.BlockchainStore.Metadata.{
  load_metadata, load_checkpoints, is_empty, clear_all,
}
use goud_chain.Storage.BlockchainStore.Checkpoints.{
  HasCheckpointsOf, load_checkpoints_same, clear_all-Keeps, save_block_keeps, save_metadata-Keeps,
}
use goud_chain.Storage.Startup.{
  lift_save, save_first, start_chain, load_schema, load_existing, load_blockchain,
}

module _ (x : Externals) (j : Json) (r : RocksDb) (codec : Codec Block) where
  module _ (laws : RocksDbLaws r) (reliable : IsReliable r) (old : r.Db) where
    lift_save_keeps :
        (m : Result r.Db) (d : r.Db)
        → ((d' : r.Db) → m ≡ ok d' → HasCheckpointsOf r old d')
        → HasCheckpointsOf r old d
        → HasCheckpointsOf r old (lift_save x j r codec m d).1
    lift_save_keeps (ok d') d h k = h d' refl
    lift_save_keeps (err e) d h k = k
    lift_save_keeps panic d h k = k

    save_first-Keeps :
        (chain : List Block) → Keeps (HasCheckpointsOf r old) (save_first x j r codec chain)
    save_first-Keeps [] d h = h
    save_first-Keeps (genesis ∷ rest) d h =
        lift_save_keeps (save_block r codec d genesis) d
          (λ d' saved. save_block_keeps r laws reliable old codec d d' genesis saved h) h

    start_chain-Keeps :
        (node_id : String) (validator_config : ValidatorConfig) (now jitter : ℤ)
        → Keeps
            (HasCheckpointsOf r old)
            (start_chain x j r codec node_id validator_config now jitter)
    unfolding start_chain
    start_chain-Keeps node_id validator_config now jitter =
        >>=-Keeps (HasCheckpointsOf r old) (lift (new x j node_id validator_config now jitter)) _
          (λ d h. h)
          λ bc.
            >>=-Keeps (HasCheckpointsOf r old) (save_first x j r codec bc.chain) _
              (save_first-Keeps bc.chain)
              λ _.
                >>=-Keeps (HasCheckpointsOf r old)
                  (λ db. save_metadata r codec db node_id schema_version) _
                  (save_metadata-Keeps r laws reliable old codec node_id schema_version)
                  (λ _ d h. h)

    load_schema-Keeps :
        (fuel : ℕ) (node_id : String) (validator_config : ValidatorConfig) (now jitter : ℤ)
        (stored_schema : String)
        → str_eq stored_schema schema_version ≡ false
        → Keeps
            (HasCheckpointsOf r old)
            (load_schema x j r codec fuel node_id validator_config now jitter stored_schema)
    unfolding load_schema
    load_schema-Keeps fuel node_id validator_config now jitter stored_schema differs d h =
        rw differs (
          >>=-Keeps (HasCheckpointsOf r old) (clear_all r) _ (clear_all-Keeps r laws reliable old)
            (λ _. start_chain-Keeps node_id validator_config now jitter) d h)

  start_chain-new :
      (node_id : String) (validator_config : ValidatorConfig) (now jitter : ℤ) (db : r.Db)
      (bc : Blockchain)
      → (start_chain x j r codec node_id validator_config now jitter db).0 ≡ ok bc
      → new x j node_id validator_config now jitter ≡ ok bc
  unfolding start_chain
  start_chain-new node_id validator_config now jitter db bc h =
      let (bc0, made, e) = next-eq-ok (lift (new x j node_id validator_config now jitter) db) _ h in
      let h1 = rw e at h in
      let (_, kept, e1) = next-eq-ok (save_first x j r codec bc0.chain db) _ h1 in
      let h2 = rw e1 at h1 in
      let db1 = (save_first x j r codec bc0.chain db).1 in
      let (_, noted, e2) =
        next-eq-ok (save_metadata r codec db1 node_id schema_version) (λ _. pure bc0) h2 in
      let h3 = rw e2 at h2 in made ∙ h3

  load_schema-new :
      (fuel : ℕ) (node_id : String) (validator_config : ValidatorConfig) (now jitter : ℤ)
      (stored_schema : String) (db : r.Db) (bc : Blockchain)
      → str_eq stored_schema schema_version ≡ false
      → (load_schema x j r codec fuel node_id validator_config now jitter stored_schema db).0
        ≡ ok bc
      → new x j node_id validator_config now jitter ≡ ok bc
  unfolding load_schema
  load_schema-new fuel node_id validator_config now jitter stored_schema db bc differs h =
      let h1 = rw differs at h in
      let (_, cleared, e) = next-eq-ok (clear_all r db) _ h1 in
      start_chain-new node_id validator_config now jitter (clear_all r db).1 bc (rw e at h1)

  -- Over a database that keeps its laws and does not fail: a node that starts on a chain of another
  -- schema has the new chain of `Blockchain::new`, but the checkpoints that a later start loads are still
  -- those of the chain that was discarded, whatever the bound on the loop that loads them.
  pub load_blockchain_stale_checkpoints :
      (laws : RocksDbLaws r) (reliable : IsReliable r) (fuel rounds : ℕ) (node_id : String)
      (validator_config : ValidatorConfig) (now jitter : ℤ) (db : r.Db)
      (stored_id stored_schema : String) (bc : Blockchain)
      → is_empty r db ≡ ok false
      → load_metadata r x db ≡ ok (stored_id, stored_schema)
      → str_eq stored_schema schema_version ≡ false
      → (load_blockchain x j r codec fuel node_id validator_config now jitter db).0 ≡ ok bc
      → (new x j node_id validator_config now jitter ≡ ok bc)
        × (load_checkpoints r x rounds
              (load_blockchain x j r codec fuel node_id validator_config now jitter db).1
            ≡ load_checkpoints r x rounds db)
  unfolding load_blockchain load_existing
  load_blockchain_stale_checkpoints laws reliable fuel rounds node_id validator_config now jitter db
        stored_id stored_schema bc filled metadata differs h =
      let h1 = rw (filled, metadata) at h in
      (
        load_schema-new fuel node_id validator_config now jitter stored_schema db bc differs h1,
        rw (filled, metadata)
            (load_checkpoints_same r x db _ rounds (
              load_schema-Keeps laws reliable db fuel node_id validator_config now jitter
                stored_schema differs db (λ i. refl))),
      )

-- ===== src/Storage/Startup/Ready.antt =====
-- What a node that has started leaves in its database (src/storage/mod.rs).
use mathlib.Core.Path.{subst}
use goud_chain.Prelude.{
  ℕ, ℤ, String, str_eq, eq_iff, List, [], ◌∷◌, All, false, Bool-cases, inl, inr, ◌≡◌, refl, sym, ap,
  ◌∙◌, arith,
}
use goud_chain.Errors.{Result, ok, err, panic, >>=-eq-ok, ok_injective}
use goud_chain.Constants.{schema_version, genesis_previous_hash}
use goud_chain.Config.{ValidatorConfig, round_robin}
use goud_chain.Crypto.Externals.{Externals}
use goud_chain.Domain.Types.{Block, Json}
use goud_chain.Domain.Blockchain.{Blockchain}
use goud_chain.Domain.Blockchain.Add.{new}
use goud_chain.Domain.Block.{BlockConfig, new_block}
use goud_chain.Domain.Block.New.{new_block-IsSealed}
use goud_chain.Storage.Action.{pure, lift, next-eq-ok}
use goud_chain.Storage.Codec.{Codec}
use goud_chain.Storage.RocksDb.{RocksDb, RocksDbLaws, IsReliable}
use goud_chain.Storage.BlockchainStore.{save_block, save_metadata, load_chain}
use goud_chain.Storage.BlockchainStore.Held.{HoldsChain, load_chain-HoldsChain}
use goud_chain.Storage.BlockchainStore.Saved.{IsStorable, HoldsChain-save_block}
use goud_chain.Storage.BlockchainStore.Described.{IsUtf8, load_metadata-save_metadata}
use goud_chain.Storage.BlockchainStore.Metadata.{
  load_metadata, load_checkpoints, is_empty, clear_all,
}
use goud_chain.Storage.Startup.{
  lift_save, start_chain, resume_chain, load_schema, load_existing, load_blockchain,
}

module _ (x : Externals) (j : Json) (r : RocksDb) (codec : Codec Block) where
  -- A database with a chain of the present schema.
  pub record IsReady (db : r.Db) (chain : List Block) : Type 0 where
    pub filled : is_empty r db ≡ ok false
    pub stored_id : String
    pub metadata : load_metadata r x db ≡ ok (stored_id, schema_version)
    pub loaded : load_chain r codec db ≡ ok chain

  -- The node that starts with a chain from the database.
  abbrev pub resumed : String → ValidatorConfig → List Block → List String → Blockchain
  resumed node_id validator_config chain checkpoints = record {
    schema_version = schema_version;
    chain = chain;
    node_id = node_id;
    checkpoints = checkpoints;
    pending_accounts_with_keys = [];
    pending_collections = [];
    validator_config = validator_config;
  }

  pub load_blockchain-IsReady :
      (fuel : ℕ) (node_id : String) (validator_config : ValidatorConfig) (now jitter : ℤ)
      (db : r.Db) (chain : List Block) (checkpoints : List String)
      → IsReady db chain
      → load_checkpoints r x fuel db ≡ ok checkpoints
      → load_blockchain x j r codec fuel node_id validator_config now jitter db
        ≡ (ok (resumed node_id validator_config chain checkpoints), db)
  unfolding load_blockchain load_existing load_schema resume_chain
  load_blockchain-IsReady fuel node_id validator_config now jitter db chain checkpoints ready h =
      rw (ready.filled, ready.metadata, ready.loaded, h) refl

  resume_chain-IsReady :
      (fuel : ℕ) (node_id : String) (validator_config : ValidatorConfig) (db : r.Db)
      (stored_id : String) (bc : Blockchain)
      → is_empty r db ≡ ok false
      → load_metadata r x db ≡ ok (stored_id, schema_version)
      → (resume_chain x j r codec fuel node_id validator_config db).0 ≡ ok bc
      → IsReady (resume_chain x j r codec fuel node_id validator_config db).1 bc.chain
  unfolding resume_chain
  resume_chain-IsReady fuel node_id validator_config db stored_id bc filled metadata h =
      let (chain, loaded, e) = next-eq-ok (lift (load_chain r codec db) db) _ h in
      let h' = rw e at h in
      let (checkpoints, read, e') = next-eq-ok (lift (load_checkpoints r x fuel db) db) _ h' in
      let h'' = rw e' at h' in
      rw (e, e')
        (record {
          filled = filled;
          stored_id = stored_id;
          metadata = metadata;
          loaded = loaded ∙ ap (λ b. ok b.chain) (ok_injective h'');
        })

  genesis_config : String → BlockConfig
  genesis_config validator = record {
    index = 0;
    account_envelopes = [];
    collection_envelopes = [];
    previous_hash = genesis_previous_hash;
    validator = validator;
    blind_indexes = [];
    block_salt = "genesis_salt";
  }

  -- A new chain is one block of index 0.
  new_genesis :
      (node_id : String) (validator_config : ValidatorConfig) (now jitter : ℤ) (bc : Blockchain)
      → new x j node_id validator_config now jitter ≡ ok bc
      → (genesis : Block) × (bc.chain ≡ genesis ∷ []) × (genesis.index ≡ 0)
  unfolding new genesis_config
  new_genesis node_id validator_config now jitter bc h =
      let (validator, assigned, h1) = >>=-eq-ok (round_robin validator_config.validators 0) _ h in
      let (genesis, made, h2) =
        >>=-eq-ok (new_block x j (genesis_config validator) now jitter) _ h1 in
      let same = sym (ok_injective h2) in
      (
        genesis,
        ap (λ b. b.chain) same,
        (new_block-IsSealed x j (genesis_config validator) now jitter genesis made).index,
      )

  lift_save-eq-ok :
      (m : Result r.Db) (d : r.Db)
      → (lift_save x j r codec m d).0 ≡ ok tt
      → (d' : r.Db) × (m ≡ ok d') × (lift_save x j r codec m d ≡ (ok tt, d'))
  lift_save-eq-ok (ok d') d h = (d', refl, refl)
  lift_save-eq-ok (err e) d h = cc
  lift_save-eq-ok panic d h = cc

  module _ (laws : RocksDbLaws r) (reliable : IsReliable r) where
    pub is_empty-HoldsChain :
        (db : r.Db) (chain : List Block)
        → HoldsChain r laws codec db chain
        → is_empty r db ≡ ok false
    unfolding is_empty
    is_empty-HoldsChain db chain held = rw (held.0) refl

    -- The first block and the metadata, over whatever the database held.
    saved-IsReady :
        (node_id : String) (bc : Blockchain) (genesis : Block) (db db1 : r.Db)
        → IsUtf8 x node_id
        → IsUtf8 x schema_version
        → IsStorable r laws codec genesis
        → genesis.index ≡ 0
        → save_block r codec db genesis ≡ ok db1
        → (db2 : r.Db) × (save_metadata r codec db1 node_id schema_version ≡ (ok tt, db2))
          × IsReady db2 (genesis ∷ [])
    saved-IsReady node_id bc genesis db db1 utf8_id utf8_schema storable first saved =
        let held =
          HoldsChain-save_block r laws codec reliable db db1 [] genesis storable tt first
            (omega arith) saved in
        let (db2, done, metadata, held2) =
          load_metadata-save_metadata r laws reliable codec x db1 node_id schema_version
            (genesis ∷ []) utf8_id utf8_schema held in
        (
          db2,
          done,
          record {
            filled = is_empty-HoldsChain db2 (genesis ∷ []) held2;
            stored_id = node_id;
            metadata = metadata;
            loaded = load_chain-HoldsChain r laws codec db2 (genesis ∷ []) (omega arith) held2;
          },
        )

    start_chain-IsReady :
        (node_id : String) (validator_config : ValidatorConfig) (now jitter : ℤ) (db : r.Db)
        (bc : Blockchain)
        → IsUtf8 x node_id
        → IsUtf8 x schema_version
        → All (IsStorable r laws codec) bc.chain
        → (start_chain x j r codec node_id validator_config now jitter db).0 ≡ ok bc
        → IsReady (start_chain x j r codec node_id validator_config now jitter db).1 bc.chain
    unfolding start_chain
    start_chain-IsReady node_id validator_config now jitter db bc utf8_id utf8_schema storable h =
        let (bc0, made, e) =
          next-eq-ok (lift (new x j node_id validator_config now jitter) db) _ h in
        let h1 = rw e at h in
        let (genesis, one, first) = new_genesis node_id validator_config now jitter bc0 made in
        let h2 = rw one at h1 in
        let (_, kept, e1) =
          next-eq-ok (lift_save x j r codec (save_block r codec db genesis) db) _ h2 in
        let (db1, saved, e2) = lift_save-eq-ok (save_block r codec db genesis) db kept in
        let h3 = rw e2 at h2 in
        let (_, noted, e3) =
          next-eq-ok (save_metadata r codec db1 node_id schema_version) (λ _. pure bc0) h3 in
        let h4 = rw e3 at h3 in
        let same : bc0 ≡ bc = ok_injective h4 in
        let all_storable = rw (sym same, one) at storable in
        let (db2, done, ready) =
          saved-IsReady node_id bc genesis db db1 utf8_id utf8_schema (all_storable.0) first
            saved in
        let whole : genesis ∷ [] ≡ bc.chain = sym one ∙ ap (λ b. b.chain) same in
        rw (made, one, e2, done) (subst (IsReady db2) whole ready)

    load_schema-IsReady :
        (fuel : ℕ) (node_id : String) (validator_config : ValidatorConfig) (now jitter : ℤ)
        (db : r.Db) (stored_id stored_schema : String) (bc : Blockchain)
        → IsUtf8 x node_id
        → IsUtf8 x schema_version
        → All (IsStorable r laws codec) bc.chain
        → is_empty r db ≡ ok false
        → load_metadata r x db ≡ ok (stored_id, stored_schema)
        → (load_schema x j r codec fuel node_id validator_config now jitter stored_schema db).0
          ≡ ok bc
        → IsReady
            (load_schema x j r codec fuel node_id validator_config now jitter stored_schema db).1
            bc.chain
    unfolding load_schema
    load_schema-IsReady fuel node_id validator_config now jitter db stored_id stored_schema bc
          utf8_id utf8_schema storable filled metadata h =
        elim (Bool-cases (str_eq stored_schema schema_version)) [
          | inl t ↦ rw t (
              resume_chain-IsReady fuel node_id validator_config db stored_id bc filled
                (rw (sym ((eq_iff stored_schema schema_version).0 t)) metadata) (rw t at h))
          | inr t ↦
              let h' = rw t at h in
              let (_, cleared, e) = next-eq-ok (clear_all r db) _ h' in
              rw (t, e)
                (start_chain-IsReady node_id validator_config now jitter (clear_all r db).1 bc
                  utf8_id utf8_schema storable (rw e at h'))
        ]

    -- What a node that has started leaves in its database.
    pub IsReady-load_blockchain :
        (fuel : ℕ) (node_id : String) (validator_config : ValidatorConfig) (now jitter : ℤ)
        (db : r.Db) (bc : Blockchain)
        → IsUtf8 x node_id
        → IsUtf8 x schema_version
        → All (IsStorable r laws codec) bc.chain
        → (load_blockchain x j r codec fuel node_id validator_config now jitter db).0 ≡ ok bc
        → IsReady
            (load_blockchain x j r codec fuel node_id validator_config now jitter db).1
            bc.chain
    unfolding load_blockchain load_existing
    IsReady-load_blockchain fuel node_id validator_config now jitter db bc utf8_id utf8_schema
          storable h =
        let (empty, asked, e) = next-eq-ok (lift (is_empty r db) db) _ h in
        let h1 = rw e at h in
        elim (Bool-cases empty) [
          | inl t ↦
              rw (asked, t)
                (start_chain-IsReady node_id validator_config now jitter db bc utf8_id utf8_schema
                  storable (rw t at h1))
          | inr t ↦
              let h2 = rw t at h1 in
              let (metadata, read, e1) = next-eq-ok (lift (load_metadata r x db) db) _ h2 in
              rw (asked, t, read)
                (load_schema-IsReady fuel node_id validator_config now jitter db metadata.0
                  metadata.1 bc utf8_id utf8_schema storable (asked ∙ ap ok t) read (rw e1 at h2))
        ]

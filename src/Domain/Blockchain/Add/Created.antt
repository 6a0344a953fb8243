-- ===== src/Domain/Blockchain/Add/Created.antt =====
-- The block that `add_block` (src/domain/blockchain.rs) makes.
use goud_chain.Prelude.{String, List, [], map, get_last?, true, some, ◌≡◌, arith}
use goud_chain.Errors.{ok, >>=-eq-ok, guard-eq-ok}
use goud_chain.Config.{round_robin, is_node_authorized}
use goud_chain.Crypto.Externals.{Externals, Bytes}
use goud_chain.Domain.Types.{AccountEnvelope, Block, Json}
use goud_chain.Domain.Block.{BlockConfig}
use goud_chain.Domain.Block.New.{IsSealed, new_block-IsSealed}
use goud_chain.Domain.Blockchain.{Blockchain, get_latest_block, next_index}
use goud_chain.Domain.Blockchain.Add.{
  Draws, wrap_collection, seal_accounts, author_block, create_block, commit_block, add_block,
}

get_latest_block-eq-ok :
    (bc : Blockchain) {b : Block} → get_latest_block bc ≡ ok b → get_last? bc.chain ≡ some b
unfolding get_latest_block
get_latest_block-eq-ok bc h = ground arith

module _ (x : Externals) (j : Json) (get_encryption_key : Bytes → Bytes → Bytes) where
  -- The configuration that the block is made from.
  abbrev pub config_of : Blockchain → Draws → Block → List AccountEnvelope → String → BlockConfig
  config_of bc draws last envelopes validator = record {
    index = next_index last.index;
    account_envelopes = envelopes;
    collection_envelopes = map wrap_collection bc.pending_collections;
    previous_hash = last.hash;
    validator = validator;
    blind_indexes = [];
    block_salt = draws.block_salt;
  }

  -- The block follows the chain's last one, its node is the validator that round robin names for its
  -- index, and it seals what was pending.
  pub record IsCreated (bc : Blockchain) (draws : Draws) (b : Block) : Type 0 where
    pub last : Block
    pub after : get_last? bc.chain ≡ some last
    pub validator : String
    pub assigned : round_robin bc.validator_config.validators (next_index last.index) ≡ ok validator
    pub authorized :
        is_node_authorized bc.validator_config bc.node_id (next_index last.index) ≡ ok true
    pub envelopes : List AccountEnvelope
    pub sealed_accounts :
        seal_accounts x j get_encryption_key draws.nonce draws.block_salt 0
          bc.pending_accounts_with_keys
        ≡ ok envelopes
    pub sealed : IsSealed x j (config_of bc draws last envelopes validator) draws.now draws.jitter b

  author_block-IsCreated :
      (bc : Blockchain) (draws : Draws) (b : Block)
      → author_block x j get_encryption_key bc draws ≡ ok b
      → IsCreated bc draws b
  unfolding author_block
  author_block-IsCreated bc draws b h =
      let (last, latest, r₁) = >>=-eq-ok _ _ h in
      let (validator, assigned, r₂) = >>=-eq-ok _ _ r₁ in
      let (authorized, asked, r₃) =
        >>=-eq-ok (is_node_authorized bc.validator_config bc.node_id (next_index last.index)) _
          r₂ in
      let (_, passed, r₄) = >>=-eq-ok _ _ r₃ in
      let (envelopes, sealed_accounts, made) = >>=-eq-ok _ _ r₄ in
      let allowed : authorized ≡ true = guard-eq-ok _ _ passed in
      record {
        last = last;
        after = get_latest_block-eq-ok bc latest;
        validator = validator;
        assigned = assigned;
        authorized = rw allowed at asked;
        envelopes = envelopes;
        sealed_accounts = sealed_accounts;
        sealed = new_block-IsSealed x j _ draws.now draws.jitter b made;
      }

  pub create_block-IsCreated :
      (bc : Blockchain) (draws : Draws) (b : Block)
      → create_block x j get_encryption_key bc draws ≡ ok b
      → IsCreated bc draws b
  create_block-IsCreated bc draws b h =
      author_block-IsCreated bc draws b (unfold create_block in ground arith)

  -- A call that returns a block has made it, and leaves the state that `commit_block` gives.
  pub add_block-eq-ok :
      (bc : Blockchain) (draws : Draws) (b : Block)
      → (add_block x j get_encryption_key bc draws).0 ≡ ok b
      → IsCreated bc draws b
        × ((add_block x j get_encryption_key bc draws).1 ≡ commit_block x j get_encryption_key bc b)
  add_block-eq-ok bc draws b h = (
    create_block-IsCreated bc draws b (unfold add_block in ground arith),
    unfold add_block in ground arith,
  )

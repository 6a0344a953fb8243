-- ===== src/Domain/Blockchain/Add.antt =====
-- src/domain/blockchain.rs: `new`, the pending data, and `add_block`.
pub mod Created
pub mod Keeps
use goud_chain.Prelude.{ℕ, suc, ◌%◌, ◌==◌, ℤ, String, List, [], ◌∷◌, ◌++◌, map, ◌&&◌, if◌then◌else◌}
use goud_chain.Errors.{
  Result, ok, err, panic, ◌>>=◌, ◌>>◌, guard, no_pending_data, not_authorized_validator,
}
use goud_chain.Constants.{schema_version, genesis_previous_hash, checkpoint_interval}
use goud_chain.Config.{ValidatorConfig, round_robin, is_node_authorized}
use goud_chain.Crypto.Externals.{Externals, Bytes}
use goud_chain.Domain.Types.{
  UserAccount, EncryptedCollection, AccountEnvelope, CollectionEnvelope, Block, Json,
}
use goud_chain.Domain.Envelope.{encrypt_account_envelope}
use goud_chain.Domain.Merkle.{is_empty}
use goud_chain.Domain.Block.{new_block}
use goud_chain.Domain.Blockchain.{Blockchain, get_latest_block, next_index}

-- What a call of `add_block` takes from the clock and the random generator: the time, the jitter, the
-- block salt and the nonce of each account's envelope.
pub record Draws : Type 0 where
  pub now : ℤ
  pub jitter : ℤ
  pub block_salt : String
  pub nonce : ℕ → Bytes

unfoldable pub add_account_with_key : Blockchain → UserAccount → Bytes → Blockchain
add_account_with_key bc account api_key = record bc {
  pending_accounts_with_keys = bc.pending_accounts_with_keys ++ (account, api_key) ∷ [];
}

unfoldable pub add_collection : Blockchain → EncryptedCollection → Blockchain
add_collection bc collection = record bc {
  pending_collections = bc.pending_collections ++ collection ∷ [];
}

abbrev pub wrap_collection : EncryptedCollection → CollectionEnvelope
wrap_collection c = record { collection = c }

module _ (x : Externals) (j : Json) where
  -- `Blockchain::new`. The genesis block reads neither the clock nor the jitter.
  unfoldable pub new : String → ValidatorConfig → ℤ → ℤ → Result Blockchain
  new node_id validator_config now jitter = do
    validator ← round_robin validator_config.validators 0
    genesis ←
        new_block x j
          (record {
            index = 0;
            account_envelopes = [];
            collection_envelopes = [];
            previous_hash = genesis_previous_hash;
            validator = validator;
            blind_indexes = [];
            block_salt = "genesis_salt";
          })
          now jitter
    ok (record {
      schema_version = schema_version;
      chain = genesis ∷ [];
      node_id = node_id;
      checkpoints = [];
      pending_accounts_with_keys = [];
      pending_collections = [];
      validator_config = validator_config;
    })

  module _ (get_encryption_key : Bytes → Bytes → Bytes) where
    -- The loop over the pending accounts; the first error ends it.
    unfoldable pub seal_accounts :
        (ℕ → Bytes) → String → ℕ → List (UserAccount × Bytes) → Result (List AccountEnvelope)
    seal_accounts nonce block_salt i [] = ok []
    seal_accounts nonce block_salt i ((account, api_key) ∷ rest) = do
      envelope ←
          encrypt_account_envelope x j get_encryption_key account api_key block_salt (nonce i)
      envelopes ← seal_accounts nonce block_salt (suc i) rest
      ok (envelope ∷ envelopes)

    -- The block that follows the last one, by the validator whose turn it is.
    unfoldable pub author_block : Blockchain → Draws → Result Block
    unfolding get_latest_block next_index
    author_block bc draws = do
      previous_block ← get_latest_block bc
      let block_number = next_index previous_block.index
      validator ← round_robin bc.validator_config.validators block_number
      authorized ← is_node_authorized bc.validator_config bc.node_id block_number
      guard authorized (not_authorized_validator bc.node_id validator block_number)
      account_envelopes ← seal_accounts draws.nonce draws.block_salt 0 bc.pending_accounts_with_keys
      new_block x j
          (record {
            index = block_number;
            account_envelopes = account_envelopes;
            collection_envelopes = map wrap_collection bc.pending_collections;
            previous_hash = previous_block.hash;
            validator = validator;
            blind_indexes = [];
            block_salt = draws.block_salt;
          })
          draws.now draws.jitter

    -- `add_block` up to the call of `Block::new`: nothing is changed yet.
    unfoldable pub create_block : Blockchain → Draws → Result Block
    create_block bc draws =
        if is_empty bc.pending_accounts_with_keys && is_empty bc.pending_collections
        then err no_pending_data
        else author_block bc draws

    -- What `add_block` changes once it has the block.
    unfoldable pub commit_block : Blockchain → Block → Blockchain
    commit_block bc block = record bc {
      chain = bc.chain ++ block ∷ [];
      pending_accounts_with_keys = [];
      pending_collections = [];
      checkpoints =
          if block.index % checkpoint_interval == 0
          then bc.checkpoints ++ block.hash ∷ []
          else bc.checkpoints;
    }

    unfoldable pub add_block : Blockchain → Draws → Result Block × Blockchain
    add_block bc draws = elim (create_block bc draws) [
      | ok block ↦ (ok block, commit_block bc block)
      | err e ↦ (err e, bc)
      | panic ↦ (panic, bc)
    ]

-- ===== src/Domain/Blockchain.antt =====
-- src/domain/blockchain.rs: the chain, the blocks that a node adds, validation, and the choice
-- between two chains. Logging is left out.
pub mod Add
pub mod Validate
pub mod Replace
pub mod Find
use goud_chain.Prelude.{ℕ, ◌+◌, ◌%◌, ◌^◌, String, List, Option, get_last?}
use goud_chain.Errors.{Result, ok_or, empty_blockchain}
use goud_chain.Config.{ValidatorConfig}
use goud_chain.Crypto.Externals.{Bytes}
use goud_chain.Domain.Types.{UserAccount, EncryptedCollection, Block}

-- `node_signing_key` is never read by the code modelled here and is left out.
pub record Blockchain : Type 0 where
  pub schema_version : String
  pub chain : List Block
  pub node_id : String
  pub checkpoints : List String
  pub pending_accounts_with_keys : List (UserAccount × Bytes)
  pub pending_collections : List EncryptedCollection
  pub validator_config : ValidatorConfig

unfoldable pub get_latest_block : Blockchain → Result Block
get_latest_block bc = ok_or empty_blockchain (get_last? bc.chain)

-- `index + 1` on a `u64`
unfoldable pub next_index : ℕ → ℕ
next_index index = (index + 1) % 2 ^ 64

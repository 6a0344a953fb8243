-- ===== src/Domain/Blockchain/Validate.antt =====
-- src/domain/blockchain.rs: `is_valid`. The clock is read once for each block: `now i` at index `i`.
pub mod Links
use goud_chain.Prelude.{ℕ, suc, ℤ, pos, ◌+ℤ◌, ltb_ℤ, String, str_eq, List, [], ◌∷◌, not}
use goud_chain.Errors.{
  Result, ok, ◌>>=◌, ◌>>◌, guard, invalid_block_hash, broken_chain, future_timestamp,
  invalid_timestamp, invalid_merkle_root, invalid_validator,
}
use goud_chain.Constants.{timestamp_tolerance_seconds}
use goud_chain.Config.{round_robin}
use goud_chain.Crypto.Externals.{Externals}
use goud_chain.Domain.Types.{Block, Json}
use goud_chain.Domain.Merkle.{calculate_merkle_root}
use goud_chain.Domain.Block.{calculate_hash, verify_data}
use goud_chain.Domain.Blockchain.{Blockchain}

module _ (x : Externals) (j : Json) (validators : List String) (now : ℕ → ℤ) where
  -- The body of the loop at index `i`, with `chain[i - 1]` and `chain[i]`.
  unfoldable pub check_block : ℕ → Block → Block → Result (Unit {0})
  check_block i previous current = do
    guard (str_eq current.hash (calculate_hash x.blake3_hex current)) (invalid_block_hash i)
    guard (str_eq current.previous_hash previous.hash) (broken_chain i)
    guard (not (ltb_ℤ (now i +ℤ pos timestamp_tolerance_seconds) current.timestamp))
        (future_timestamp current.timestamp)
    guard (not (ltb_ℤ current.timestamp previous.timestamp)) (invalid_timestamp i)
    merkle_root ←
        calculate_merkle_root x.blake3_hex current.encrypted_block_data current.blind_indexes
    guard (str_eq current.merkle_root merkle_root) (invalid_merkle_root i)
    verify_data x j current
    expected_validator ← round_robin validators current.index
    guard (str_eq current.validator expected_validator)
        (invalid_validator i expected_validator current.validator)

  -- `for i in 1..self.chain.len()`
  unfoldable pub check_from : ℕ → Block → List Block → Result (Unit {0})
  check_from i previous [] = ok tt
  check_from i previous (current ∷ rest) =
      check_block i previous current >> check_from (suc i) current rest

  unfoldable pub check_chain : List Block → Result (Unit {0})
  check_chain [] = ok tt
  check_chain (genesis ∷ rest) = check_from 1 genesis rest

unfoldable pub is_valid : Externals → Json → (ℕ → ℤ) → Blockchain → Result (Unit {0})
is_valid x j now bc = check_chain x j bc.validator_config.validators now bc.chain

-- ===== src/Domain/Block/New.antt =====
-- `Block::new` (src/domain/block.rs): what holds of the block that it returns.
use goud_chain.Prelude.{◌≡◌, refl, ℤ, ◌==◌, String, inr, if◌then◌else◌}
use mathlib.Core.Path.{subst}
use goud_chain.Errors.{ok, >>=-eq-ok, map_err-eq-ok, ok_injective}
use goud_chain.Constants.{genesis_timestamp}
use goud_chain.Crypto.Externals.{Externals, as_bytes}
use goud_chain.Domain.Types.{Block, BlockEnvelopeContainer, Json}
use goud_chain.Domain.Merkle.{calculate_merkle_root}
use goud_chain.Domain.Block.{BlockConfig, obfuscate_timestamp, calculate_hash, new_block}

abbrev pub container_of : BlockConfig → BlockEnvelopeContainer
container_of config = record {
  account_envelopes = config.account_envelopes;
  collection_envelopes = config.collection_envelopes;
  validator = config.validator;
}

-- The block carries its configuration, its data is the container's text, and its root and its hash
-- are those that validation computes.
pub record IsSealed (x : Externals) (j : Json) (config : BlockConfig) (now jitter : ℤ) (b : Block)
    : Type 0 where
  pub index : b.index ≡ config.index
  pub timestamp :
      b.timestamp
      ≡ (if config.index == 0 then genesis_timestamp else obfuscate_timestamp now jitter)
  pub blind_indexes : b.blind_indexes ≡ config.blind_indexes
  pub block_salt : b.block_salt ≡ config.block_salt
  pub validator : b.validator ≡ config.validator
  pub previous_hash : b.previous_hash ≡ config.previous_hash
  pub merkle_root :
      calculate_merkle_root x.blake3_hex b.encrypted_block_data b.blind_indexes ≡ ok b.merkle_root
  pub hash : b.hash ≡ calculate_hash x.blake3_hex b
  pub json : String
  pub written : j.container_to_string (container_of config) ≡ inr json
  pub encoded : b.encrypted_block_data ≡ x.base64_encode (as_bytes json)

-- A block that `Block::new` returns carries its configuration; its data is the encoded text of the
-- container; its timestamp is the obfuscated clock, or the fixed one at index 0; and its merkle root and
-- hash are those that validation computes from it.
pub new_block-IsSealed :
    (x : Externals) (j : Json) (config : BlockConfig) (now jitter : ℤ) (b : Block)
    → new_block x j config now jitter ≡ ok b
    → IsSealed x j config now jitter b
unfolding new_block calculate_hash
new_block-IsSealed x j config now jitter b h =
    let (json, written, rest) = >>=-eq-ok _ _ h in
    let (root, rooted, made) = >>=-eq-ok _ _ rest in
    subst (IsSealed x j config now jitter) (ok_injective made) (record {
      index = refl;
      timestamp = refl;
      blind_indexes = refl;
      block_salt = refl;
      validator = refl;
      previous_hash = refl;
      merkle_root = rooted;
      hash = refl;
      json = json;
      written = map_err-eq-ok _ _ written;
      encoded = refl;
    })

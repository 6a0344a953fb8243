-- ===== src/Domain/Block.antt =====
-- src/domain/block.rs: `obfuscate_timestamp` and the methods of `Block`. The clock and the random
-- numbers are arguments.
pub mod Timestamp
pub mod New
use goud_chain.Prelude.{
  ℕ, ℤ, ◌-ℤ◌, ◌+ℤ◌, rem, ◌==◌, String, ◌+++◌, str_eq, show, show_ℤ, List, [], ◌∷◌, length, Option,
  none, some, if◌then◌else◌,
}
use goud_chain.Errors.{Result, ok, ◌>>=◌, ◌>>◌, map_err, internal}
use goud_chain.Constants.{genesis_timestamp, timestamp_granularity_seconds}
use goud_chain.Crypto.Externals.{Externals, Bytes, as_bytes}
use goud_chain.Crypto.Hkdf.{hash_api_key_hex}
use goud_chain.Domain.Types.{
  UserAccount, EncryptedCollection, AccountEnvelope, CollectionEnvelope, BlockEnvelopeContainer,
  Block, Json,
}
use goud_chain.Domain.Envelope.{decrypt_account_envelope, verify_collection}
use goud_chain.Domain.Merkle.{calculate_merkle_root}

-- The second argument is the random jitter, between -14400 and 14400.
unfoldable pub obfuscate_timestamp : ℤ → ℤ → ℤ
obfuscate_timestamp timestamp jitter =
    let rounded = timestamp -ℤ rem timestamp timestamp_granularity_seconds in rounded +ℤ jitter

pub record BlockConfig : Type 0 where
  pub index : ℕ
  pub account_envelopes : List AccountEnvelope
  pub collection_envelopes : List CollectionEnvelope
  pub previous_hash : String
  pub validator : String
  pub blind_indexes : List String
  pub block_salt : String

-- The text under a block's hash.
unfoldable pub hash_content : Block → String
hash_content b =
    show b.index +++ show_ℤ b.timestamp +++ b.merkle_root +++ b.previous_hash +++ b.validator

unfoldable pub calculate_hash : (String → String) → Block → String
unfolding hash_content
calculate_hash blake3_hex b = blake3_hex (hash_content b)

-- The signatures of a list of collections: the first error ends the loop.
unfoldable pub verify_all : Externals → List CollectionEnvelope → Result (Unit {0})
verify_all x [] = ok tt
verify_all x (env ∷ rest) = verify_collection x env.collection >> verify_all x rest

-- The loop over the account envelopes: the first one with the key's hash is the answer.
abbrev pub find_envelope : String → List AccountEnvelope → Option AccountEnvelope
find_envelope api_key_hash [] = none
find_envelope api_key_hash (env ∷ rest) =
    if str_eq env.api_key_hash api_key_hash then some env else find_envelope api_key_hash rest

-- `filter` and `map` over the collection envelopes
unfoldable pub owned : String → List CollectionEnvelope → List EncryptedCollection
owned api_key_hash [] = []
owned api_key_hash (env ∷ rest) =
    let others = owned api_key_hash rest in
    if str_eq env.collection.owner_api_key_hash api_key_hash
    then env.collection ∷ others
    else others

module _ (x : Externals) (j : Json) where
  -- `Block::new`, with the clock `now` and the jitter that it reads where the index is not 0.
  unfoldable pub new_block : BlockConfig → ℤ → ℤ → Result Block
  new_block config now jitter = do
    let timestamp = if config.index == 0 then genesis_timestamp else obfuscate_timestamp now jitter
    let envelope_container : BlockEnvelopeContainer = record {
      account_envelopes = config.account_envelopes;
      collection_envelopes = config.collection_envelopes;
      validator = config.validator;
    }
    container_json ←
        map_err (λ e. internal ("Failed to serialize envelope container: " +++ e))
          (j.container_to_string envelope_container)
    let encrypted_block_data = x.base64_encode (as_bytes container_json)
    merkle_root ← calculate_merkle_root x.blake3_hex encrypted_block_data config.blind_indexes
    let block : Block = record {
      index = config.index;
      timestamp = timestamp;
      encrypted_block_data = encrypted_block_data;
      blind_indexes = config.blind_indexes;
      block_salt = config.block_salt;
      validator = config.validator;
      previous_hash = config.previous_hash;
      merkle_root = merkle_root;
      hash = "";
    }
    ok (record block { hash = calculate_hash x.blake3_hex block })

  unfoldable pub get_envelope_container : Block → Result BlockEnvelopeContainer
  get_envelope_container b = do
    container_json ←
        map_err (λ e. internal ("Failed to decode Base64: " +++ e))
          (x.base64_decode b.encrypted_block_data)
    map_err (λ e. internal ("Failed to deserialize envelope container: " +++ e))
        (j.container_from_slice container_json)

  unfoldable pub verify_data : Block → Result (Unit {0})
  unfolding get_envelope_container
  verify_data b = do
    container ← get_envelope_container b
    verify_all x container.collection_envelopes

  unfoldable pub get_collections_by_owner : Block → Bytes → Result (List EncryptedCollection)
  unfolding get_envelope_container
  get_collections_by_owner b api_key = do
    let api_key_hash = hash_api_key_hex x api_key
    container ← get_envelope_container b
    ok (owned api_key_hash container.collection_envelopes)

  unfoldable pub get_account_count : Block → Result ℕ
  unfolding get_envelope_container
  get_account_count b = do
    container ← get_envelope_container b
    ok (length container.account_envelopes)

  unfoldable pub get_collection_count : Block → Result ℕ
  unfolding get_envelope_container
  get_collection_count b = do
    container ← get_envelope_container b
    ok (length container.collection_envelopes)

  module _ (get_encryption_key : Bytes → Bytes → Bytes) where
    abbrev pub open_envelope : Option AccountEnvelope → Bytes → String → Result (Option UserAccount)
    open_envelope none api_key block_salt = ok none
    open_envelope (some env) api_key block_salt = do
      account ← decrypt_account_envelope x j get_encryption_key env api_key block_salt
      ok (some account)

    unfoldable pub get_account : Block → Bytes → Result (Option UserAccount)
    unfolding get_envelope_container
    get_account b api_key = do
      let api_key_hash = hash_api_key_hex x api_key
      container ← get_envelope_container b
      open_envelope (find_envelope api_key_hash container.account_envelopes) api_key b.block_salt

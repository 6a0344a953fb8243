-- ===== src/Domain/Types.antt =====
-- src/domain: `UserAccount`, `EncryptedCollection`, the envelopes and `Block`, and the JSON forms that
-- `serde_json` gives to them.
use goud_chain.Prelude.{ℕ, ℤ, String, List, Option}
use goud_chain.Errors.{Fallible}
use goud_chain.Crypto.Externals.{Bytes}

pub record UserAccount : Type 0 where
  pub account_id : String
  pub api_key_hash : String
  pub public_key : String
  pub created_at : ℤ
  pub metadata_encrypted : Option String
  pub signature : String

pub record EncryptedCollection : Type 0 where
  pub collection_id : String
  pub owner_api_key_hash : String
  pub encrypted_metadata : String
  pub encrypted_payload : String
  pub mac : String
  pub nonce : String
  pub signature : String
  pub public_key : String
  pub user_salt : String

pub record AccountEnvelope : Type 0 where
  pub encrypted_data : String
  pub api_key_hash : String
  pub nonce : String

pub record CollectionEnvelope : Type 0 where
  pub collection : EncryptedCollection

pub record BlockEnvelopeContainer : Type 0 where
  pub account_envelopes : List AccountEnvelope
  pub collection_envelopes : List CollectionEnvelope
  pub validator : String

pub record Block : Type 0 where
  pub index : ℕ
  pub timestamp : ℤ
  pub encrypted_block_data : String
  pub blind_indexes : List String
  pub block_salt : String
  pub validator : String
  pub previous_hash : String
  pub merkle_root : String
  pub hash : String

-- `serde_json::to_string`, `from_str` and `from_slice` at the types that the program gives them.
pub record Json : Type 0 where
  pub account_to_string : UserAccount → Fallible String
  pub account_from_str : String → Fallible UserAccount
  pub container_to_string : BlockEnvelopeContainer → Fallible String
  pub container_from_slice : Bytes → Fallible BlockEnvelopeContainer

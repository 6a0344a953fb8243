-- ===== src/Domain/Collection.antt =====
-- src/domain/encrypted_collection.rs. The global key cache stands here as two functions, the JSON form
-- of the metadata as a third.
pub mod Opened
pub mod Sealed
use goud_chain.Prelude.{ℕ, ℤ, String, ◌+++◌, Option, none, some}
use goud_chain.Errors.{Result, ok, ◌>>=◌, ◌>>◌, Fallible, map_err, internal}
use goud_chain.Constants.{encryption_salt}
use goud_chain.Crypto.Externals.{Externals, Bytes, as_bytes}
use goud_chain.Crypto.Encryption.{encrypt_data_with_nonce, decrypt_data_with_key}
use goud_chain.Crypto.Mac.{compute_mac, verify_mac}
use goud_chain.Domain.Types.{EncryptedCollection}
use goud_chain.Domain.Envelope.{verify_collection}

-- `ed25519_dalek::SigningKey`: the signature of a message, and the bytes of the verifying key.
pub record Signing : Type 1 where
  pub SigningKey : Type 0
  pub sign : SigningKey → String → Bytes
  pub public_bytes : SigningKey → Bytes

-- What a call of `new` takes from the clock and the random generators.
pub record CollectionDraws : Type 0 where
  pub collection_id : String
  pub user_salt_bytes : Bytes
  pub created_at : ℤ
  pub metadata_nonce : Bytes
  pub payload_nonce : Bytes

-- The text that a collection's MAC covers.
unfoldable pub mac_message : EncryptedCollection → String
mac_message c = c.collection_id +++ c.encrypted_metadata +++ c.encrypted_payload +++ c.user_salt

module _ (x : Externals) (get_encryption_key get_mac_key : Bytes → Bytes → Bytes) where
  unfoldable pub sign_message : (signing : Signing) → String → signing.SigningKey → String
  sign_message signing message key = x.hex_encode (signing.sign key message)

  unfoldable pub get_public_key_hex : (signing : Signing) → signing.SigningKey → String
  get_public_key_hex signing key = x.hex_encode (signing.public_bytes key)

  -- `EncryptedCollection::new`
  unfoldable pub new_collection :
      (signing : Signing) (metadata_to_string : String → ℤ → Fallible String)
      (draws : CollectionDraws) (label payload : String) (api_key : Bytes) (api_key_hash : String)
      (signing_key : signing.SigningKey)
      → Result EncryptedCollection
  new_collection signing metadata_to_string draws label payload api_key api_key_hash signing_key =
      do
        let public_key = get_public_key_hex signing signing_key
        let user_salt = x.hex_encode draws.user_salt_bytes
        let encryption_key = get_encryption_key api_key (as_bytes encryption_salt)
        let mac_key = get_mac_key api_key (as_bytes encryption_salt)
        metadata_str ← map_err internal (metadata_to_string label draws.created_at)
        (encrypted_metadata, _) ←
            encrypt_data_with_nonce x metadata_str encryption_key draws.metadata_nonce
        (encrypted_payload, nonce) ←
            encrypt_data_with_nonce x payload encryption_key draws.payload_nonce
        let mac = compute_mac x mac_key (
            as_bytes
              (draws.collection_id +++ encrypted_metadata +++ encrypted_payload +++ user_salt))
        let signature =
            sign_message signing
              (draws.collection_id +++ api_key_hash +++ encrypted_metadata +++ encrypted_payload
                +++ mac +++ user_salt)
              signing_key
        ok (record {
          collection_id = draws.collection_id;
          owner_api_key_hash = api_key_hash;
          encrypted_metadata = encrypted_metadata;
          encrypted_payload = encrypted_payload;
          mac = mac;
          nonce = nonce;
          signature = signature;
          public_key = public_key;
          user_salt = user_salt;
        })

  -- The MAC, where the caller has the API key.
  abbrev pub verify_owner : EncryptedCollection → Option Bytes → Result (Unit {0})
  verify_owner c none = ok tt
  verify_owner c (some key) =
      verify_mac x (get_mac_key key (as_bytes encryption_salt)) (as_bytes (mac_message c)) c.mac

  -- `verify` with and without the API key.
  unfoldable pub verify : EncryptedCollection → Option Bytes → Result (Unit {0})
  verify c api_key = verify_collection x c >> verify_owner c api_key

  unfoldable pub decrypt_payload : EncryptedCollection → Bytes → Result String
  decrypt_payload c api_key =
      decrypt_data_with_key x c.encrypted_payload
        (get_encryption_key api_key (as_bytes encryption_salt))

  -- The first argument is `serde_json::from_str`.
  unfoldable pub decrypt_metadata :
      {Value : Type 0} → (String → Fallible Value) → EncryptedCollection → Bytes → Result Value
  decrypt_metadata from_str c api_key = do
    decrypted ←
        decrypt_data_with_key x c.encrypted_metadata
          (get_encryption_key api_key (as_bytes encryption_salt))
    map_err internal (from_str decrypted)

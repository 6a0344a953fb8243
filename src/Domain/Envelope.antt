-- ===== src/Domain/Envelope.antt =====
-- src/domain/envelope.rs and `EncryptedCollection::verify`. Keys come from the global key cache, which
-- stands here as the function `get_encryption_key`.
pub mod RoundTrip
use goud_chain.Prelude.{String, ◌+++◌}
use goud_chain.Errors.{Result, ok, ◌>>=◌, map_err, internal}
use goud_chain.Crypto.Externals.{Externals, Bytes, as_bytes}
use goud_chain.Crypto.Signature.{verify_signature}
use goud_chain.Crypto.Hkdf.{hash_api_key_hex}
use goud_chain.Crypto.Encryption.{encrypt_data_with_nonce, decrypt_data_with_key}
use goud_chain.Domain.Types.{UserAccount, EncryptedCollection, AccountEnvelope, Json}

unfoldable pub derive_envelope_key : (Bytes → Bytes → Bytes) → Bytes → String → Bytes
derive_envelope_key get_encryption_key api_key block_salt =
    get_encryption_key api_key (as_bytes ("envelope_v1:" +++ block_salt))

module _ (x : Externals) (j : Json) (get_encryption_key : Bytes → Bytes → Bytes) where
  -- The last argument is the random nonce.
  unfoldable pub encrypt_account_envelope :
      UserAccount → Bytes → String → Bytes → Result AccountEnvelope
  encrypt_account_envelope account api_key block_salt nonce_bytes = do
    let envelope_key = derive_envelope_key get_encryption_key api_key block_salt
    account_json ←
        map_err (λ e. internal ("Failed to serialize account: " +++ e))
          (j.account_to_string account)
    (encrypted_data, nonce) ← encrypt_data_with_nonce x account_json envelope_key nonce_bytes
    ok (record {
      encrypted_data = encrypted_data;
      api_key_hash = hash_api_key_hex x api_key;
      nonce = nonce;
    })

  unfoldable pub decrypt_account_envelope : AccountEnvelope → Bytes → String → Result UserAccount
  decrypt_account_envelope envelope api_key block_salt = do
    let envelope_key = derive_envelope_key get_encryption_key api_key block_salt
    decrypted_json ← decrypt_data_with_key x envelope.encrypted_data envelope_key
    map_err (λ e. internal ("Failed to deserialize account: " +++ e))
        (j.account_from_str decrypted_json)

-- The text that a collection's signature covers.
unfoldable pub signature_message : EncryptedCollection → String
signature_message c =
    c.collection_id +++ c.owner_api_key_hash +++ c.encrypted_metadata +++ c.encrypted_payload
    +++ c.mac +++ c.user_salt

-- `verify(None)`: the signature alone.
unfoldable pub verify_collection : Externals → EncryptedCollection → Result (Unit {0})
verify_collection x c = verify_signature x (signature_message c) c.signature c.public_key

-- ===== src/Domain/Collection/Opened.antt =====
-- A new collection belongs to its owner, who opens its texts (src/domain/encrypted_collection.rs).
use goud_chain.Prelude.{ℤ, String, inr, ◌≡◌, sym, ap, length}
use goud_chain.Errors.{ok, Fallible, map_err, map_err-eq-ok, internal, >>=-eq-ok, ok_injective}
use goud_chain.Constants.{encryption_salt}
use goud_chain.Crypto.Externals.{Externals, Bytes, as_bytes}
use goud_chain.Crypto.Encryption.{encrypt_data_with_nonce, decrypt_data_with_key}
use goud_chain.Domain.Types.{EncryptedCollection}
use goud_chain.Domain.Envelope.RoundTrip.{Decrypts, decrypt_data_with_key-encrypt}
use goud_chain.Domain.Collection.{Signing, CollectionDraws, new_collection, decrypt_payload}

module _ (x : Externals) (get_encryption_key get_mac_key : Bytes → Bytes → Bytes)
    (signing : Signing) (decrypts : Decrypts x)
    (metadata_to_string : String → ℤ → Fallible String) where
  -- A text that is read back from its bytes.
  abbrev pub IsText : String → Type 0
  IsText s = x.from_utf8 (as_bytes s) ≡ inr s

  -- What the owner finds in a collection.
  pub record IsOpened (label payload : String) (created_at : ℤ) (api_key : Bytes)
      (api_key_hash : String) (c : EncryptedCollection) : Type 0 where
    pub owner : c.owner_api_key_hash ≡ api_key_hash
    pub payload_opened : decrypt_payload x get_encryption_key get_mac_key c api_key ≡ ok payload
    pub metadata : String
    pub metadata_written : metadata_to_string label created_at ≡ inr metadata
    pub metadata_opened :
        decrypt_data_with_key x c.encrypted_metadata
          (get_encryption_key api_key (as_bytes encryption_salt))
        ≡ ok metadata

  pub new_collection-IsOpened :
      (draws : CollectionDraws) (label payload : String) (api_key : Bytes) (api_key_hash : String)
      (signing_key : signing.SigningKey) (c : EncryptedCollection)
      → length draws.payload_nonce ≡ 12
      → length draws.metadata_nonce ≡ 12
      → IsText payload
      → ((s : String) → metadata_to_string label draws.created_at ≡ inr s → IsText s)
      → new_collection x get_encryption_key get_mac_key signing metadata_to_string draws label
          payload api_key api_key_hash signing_key
        ≡ ok c
      → IsOpened label payload draws.created_at api_key api_key_hash c
  unfolding new_collection decrypt_payload
  new_collection-IsOpened draws label payload api_key api_key_hash signing_key c l l' u u' h =
      let key = get_encryption_key api_key (as_bytes encryption_salt) in
      let (metadata_str, w, r₁) =
        >>=-eq-ok (map_err internal (metadata_to_string label draws.created_at)) _ h in
      let (metadata_pair, sealed', r₂) =
        >>=-eq-ok (encrypt_data_with_nonce x metadata_str key draws.metadata_nonce) _ r₁ in
      let (pair, sealed, made) =
        >>=-eq-ok (encrypt_data_with_nonce x payload key draws.payload_nonce) _ r₂ in
      let written = map_err-eq-ok internal (metadata_to_string label draws.created_at) w in
      let opened =
        decrypt_data_with_key-encrypt x decrypts payload pair.0 pair.1 key draws.payload_nonce l u
          sealed in
      let opened' =
        decrypt_data_with_key-encrypt x decrypts metadata_str metadata_pair.0 metadata_pair.1 key
          draws.metadata_nonce l' (u' metadata_str written) sealed' in
      let same = ok_injective made in
      record {
        owner = sym (ap (λ d. d.owner_api_key_hash) same);
        payload_opened = rw (sym (ap (λ d. d.encrypted_payload) same)) opened;
        metadata = metadata_str;
        metadata_written = written;
        metadata_opened = rw (sym (ap (λ d. d.encrypted_metadata) same)) opened';
      }

-- ===== src/Domain/Collection/Sealed.antt =====
-- A new collection is verified and opened again by its API key
-- (src/domain/encrypted_collection.rs, src/crypto/mac.rs, src/crypto/signature.rs).
use mathlib.Core.Path.{subst}
use goud_chain.Prelude.{ℤ, String, none, some, inr, true, ◌≡◌, refl, sym, ap, length}
use goud_chain.Errors.{ok, Fallible, map_err, internal, >>=-eq-ok, ok_injective}
use goud_chain.Constants.{encryption_salt}
use goud_chain.Crypto.Externals.{Externals, Bytes, as_bytes}
use goud_chain.Crypto.Signature.{verify_signature}
use goud_chain.Crypto.Encryption.{encrypt_data_with_nonce}
use goud_chain.Crypto.Mac.{hmac, compute_mac, verify_mac, constant_time_compare_bytes_refl}
use goud_chain.Domain.Types.{EncryptedCollection}
use goud_chain.Domain.Envelope.{signature_message, verify_collection}
use goud_chain.Domain.Envelope.RoundTrip.{Decrypts, decrypt_data_with_key-encrypt}
use goud_chain.Domain.Collection.{
  Signing, CollectionDraws, sign_message, get_public_key_hex, mac_message, new_collection, verify,
  decrypt_payload,
}

-- What `hex` and `ed25519_dalek` document: hexadecimal is read back, keys have 32 bytes and signatures
-- 64, and a key verifies what its signing key has signed.
pub record SigningLaws (x : Externals) (signing : Signing) : Type 0 where
  pub hex : (bytes : Bytes) → x.hex_decode (x.hex_encode bytes) ≡ inr bytes
  pub public_length : (key : signing.SigningKey) → length (signing.public_bytes key) ≡ 32
  pub signature_length :
      (key : signing.SigningKey) (message : String) → length (signing.sign key message) ≡ 64
  pub verifying : signing.SigningKey → x.VerifyingKey
  pub public_key :
      (key : signing.SigningKey) → x.verifying_key (signing.public_bytes key) ≡ inr (verifying key)
  pub verifies :
      (key : signing.SigningKey) (message : String)
      → x.verify (verifying key) message (signing.sign key message) ≡ true

module _ (x : Externals) (get_encryption_key get_mac_key : Bytes → Bytes → Bytes)
    (signing : Signing) (laws : SigningLaws x signing) where
  verify_signature-sign_message :
      (message : String) (key : signing.SigningKey)
      → verify_signature x message
          (sign_message x get_encryption_key get_mac_key signing message key)
          (get_public_key_hex x get_encryption_key get_mac_key signing key)
        ≡ ok tt
  unfolding verify_signature sign_message get_public_key_hex
  verify_signature-sign_message message key =
      rw
        (
          laws.hex (signing.public_bytes key),
          laws.hex (signing.sign key message),
          laws.public_length key,
          laws.signature_length key message,
          laws.public_key key,
          laws.verifies key message,
        )
        refl

  verify_mac-compute_mac :
      (key message : Bytes) → verify_mac x key message (compute_mac x key message) ≡ ok tt
  unfolding verify_mac compute_mac
  verify_mac-compute_mac key message =
      rw (laws.hex (hmac x key message), constant_time_compare_bytes_refl (hmac x key message)) refl

  -- A collection whose signature and MAC are those of its texts.
  record IsSealed (api_key : Bytes) (signing_key : signing.SigningKey) (c : EncryptedCollection)
      : Type 0 where
    signed :
        c.signature
        ≡ sign_message x get_encryption_key get_mac_key signing (signature_message c) signing_key
    published :
        c.public_key ≡ get_public_key_hex x get_encryption_key get_mac_key signing signing_key
    mac :
        c.mac
        ≡ compute_mac x (get_mac_key api_key (as_bytes encryption_salt)) (as_bytes (mac_message c))

  verify_collection-IsSealed :
      (api_key : Bytes) (signing_key : signing.SigningKey) (c : EncryptedCollection)
      → IsSealed api_key signing_key c
      → verify_collection x c ≡ ok tt
  unfolding verify_collection signature_message
  verify_collection-IsSealed api_key signing_key c s =
      rw (s.signed, s.published) (verify_signature-sign_message (signature_message c) signing_key)

  verify-IsSealed :
      (api_key : Bytes) (signing_key : signing.SigningKey) (c : EncryptedCollection)
      → IsSealed api_key signing_key c
      → (verify x get_encryption_key get_mac_key c (some api_key) ≡ ok tt)
        × (verify x get_encryption_key get_mac_key c none ≡ ok tt)
  unfolding verify mac_message
  verify-IsSealed api_key signing_key c s =
      let signed = verify_collection-IsSealed api_key signing_key c s in
      (
        rw (signed, s.mac)
            (verify_mac-compute_mac (get_mac_key api_key (as_bytes encryption_salt))
              (as_bytes (mac_message c))),
        rw signed refl,
      )

  -- A collection that `new` returned passes `verify`, with its API key and without one, and the API key
  -- decrypts its payload to the data that was put in. The payload's nonce has 12 bytes, and the data is
  -- read back as UTF-8.
  pub verify-new_collection :
      (decrypts : Decrypts x) (metadata_to_string : String → ℤ → Fallible String)
      (draws : CollectionDraws) (label payload : String) (api_key : Bytes) (api_key_hash : String)
      (signing_key : signing.SigningKey) (c : EncryptedCollection)
      → length draws.payload_nonce ≡ 12
      → x.from_utf8 (as_bytes payload) ≡ inr payload
      → new_collection x get_encryption_key get_mac_key signing metadata_to_string draws label
          payload api_key api_key_hash signing_key
        ≡ ok c
      → (verify x get_encryption_key get_mac_key c (some api_key) ≡ ok tt)
        × (verify x get_encryption_key get_mac_key c none ≡ ok tt)
        × (decrypt_payload x get_encryption_key get_mac_key c api_key ≡ ok payload)
  unfolding new_collection signature_message mac_message decrypt_payload
  verify-new_collection decrypts metadata_to_string draws label payload api_key api_key_hash
        signing_key c l u h =
      let key = get_encryption_key api_key (as_bytes encryption_salt) in
      let (metadata_str, _, r₁) =
        >>=-eq-ok (map_err internal (metadata_to_string label draws.created_at)) _ h in
      let (metadata_pair, _, r₂) =
        >>=-eq-ok (encrypt_data_with_nonce x metadata_str key draws.metadata_nonce) _ r₁ in
      let (pair, sealed, made) =
        >>=-eq-ok (encrypt_data_with_nonce x payload key draws.payload_nonce) _ r₂ in
      let opened =
        decrypt_data_with_key-encrypt x decrypts payload pair.0 pair.1 key draws.payload_nonce l u
          sealed in
      let same = ok_injective made in
      let made_sealed : IsSealed api_key signing_key c =
        subst (IsSealed api_key signing_key) same
          (record { signed = refl; published = refl; mac = refl }) in
      let (owner, anyone) = verify-IsSealed api_key signing_key c made_sealed in
      (owner, anyone, rw (sym (ap (λ d. d.encrypted_payload) same)) opened)

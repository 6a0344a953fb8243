-- ===== src/Tests/Collections.antt =====
-- A sealed collection.
use goud_chain.Prelude.{ℤ, pos, String, [], ◌∷◌, none, some, inr, ◌≡◌, refl, sym, ap}
use goud_chain.Errors.{ok, Fallible}
use goud_chain.Crypto.Externals.{Externals, as_bytes}
use goud_chain.Crypto.Encryption.{encrypt_data_with_nonce}
use goud_chain.Crypto.Mac.{hmac, compute_mac}
use goud_chain.Domain.Types.{EncryptedCollection}
use goud_chain.Domain.Envelope.RoundTrip.{Decrypts}
use goud_chain.Domain.Collection.{
  Signing, CollectionDraws, sign_message, get_public_key_hex, new_collection, verify,
  decrypt_payload,
}
use goud_chain.Domain.Collection.Sealed.{SigningLaws, verify-new_collection}
use goud_chain.Tests.Toy.{crates, zeros, to_unary, from_unary}
use goud_chain.Tests.Laws.{from_unary-to_unary}
use goud_chain.Tests.Chains.{no_keys}

-- Hexadecimal is unary too.
abbrev hex_crates : Externals
hex_crates = record crates { hex_encode = to_unary; hex_decode = λ s. inr (from_unary 0 s) }

abbrev signing : Signing
signing = record {
  SigningKey = Unit {0};
  sign = λ key message. zeros 64;
  public_bytes = λ key. zeros 32;
}

signing_laws : SigningLaws hex_crates signing
signing_laws = record {
  hex = λ bytes. ap inr (from_unary-to_unary bytes);
  public_length = λ key. refl;
  signature_length = λ key message. refl;
  verifying = λ key. tt;
  public_key = λ key. refl;
  verifies = λ key message. refl;
}

hex_decrypts : Decrypts hex_crates
hex_decrypts = record {
  base64 = λ bytes. ap inr (from_unary-to_unary bytes);
  aes = λ key nonce plaintext ciphertext h. sym h;
}

abbrev no_metadata : String → ℤ → Fallible String
no_metadata label created_at = inr ""

abbrev collection_draws : CollectionDraws
collection_draws = record {
  collection_id = "c";
  user_salt_bytes = 1 ∷ [];
  created_at = pos 0;
  metadata_nonce = zeros 12;
  payload_nonce = zeros 12;
}

abbrev collection : EncryptedCollection
collection = record {
  collection_id = "c";
  owner_api_key_hash = "k";
  encrypted_metadata = to_unary (zeros 12);
  encrypted_payload = to_unary (zeros 12);
  mac = to_unary (zeros 32);
  nonce = to_unary (zeros 12);
  signature = to_unary (zeros 64);
  public_key = to_unary (zeros 32);
  user_salt = "ab";
}

utf8_empty : hex_crates.from_utf8 (as_bytes "") ≡ inr ""
utf8_empty = refl

new_collection-collection :
    new_collection hex_crates no_keys no_keys signing no_metadata collection_draws "l" ""
      (1 ∷ [])
      "k"
      tt
    ≡ ok collection
unfolding new_collection encrypt_data_with_nonce compute_mac hmac sign_message get_public_key_hex
    as_bytes
new_collection-collection = refl

verify-new_collection_example :
    (verify hex_crates no_keys no_keys collection (some (1 ∷ [])) ≡ ok tt)
    × (verify hex_crates no_keys no_keys collection none ≡ ok tt)
    × (decrypt_payload hex_crates no_keys no_keys collection (1 ∷ []) ≡ ok "")
verify-new_collection_example =
    verify-new_collection hex_crates no_keys no_keys signing signing_laws hex_decrypts no_metadata
      collection_draws "l" "" (1 ∷ []) "k" tt collection refl utf8_empty new_collection-collection

-- ===== src/Domain/Envelope/RoundTrip.antt =====
-- An account's envelope can be opened again (src/domain/envelope.rs, src/crypto/encryption.rs).
use goud_chain.Prelude.{
  String, [], ◌∷◌, ◌++◌, length, length-append, take, drop, inr, ◌≡◌, refl, sym, ◌∙◌, ap, arith,
  not, ltb, true,
}
use goud_chain.Errors.{ok, inr_injective, >>=-eq-ok, map_err-eq-ok, ok_injective}
use goud_chain.Crypto.Externals.{Externals, Bytes, as_bytes}
use goud_chain.Crypto.Encryption.{encrypt_data_with_nonce, decrypt_data_with_key}
use goud_chain.Domain.Types.{UserAccount, AccountEnvelope, Json}
use goud_chain.Domain.Envelope.{
  derive_envelope_key, encrypt_account_envelope, decrypt_account_envelope,
}

take-append : (xs ys : Bytes) → take (length xs) (xs ++ ys) ≡ xs
take-append [] ys = refl
take-append (b ∷ xs) ys = ap (λ bs. b ∷ bs) (take-append xs ys)

drop-append : (xs ys : Bytes) → drop (length xs) (xs ++ ys) ≡ ys
drop-append [] ys = refl
drop-append (b ∷ xs) ys = drop-append xs ys

-- A nonce of 12 bytes and what follows it are told apart.
pub framed :
    (nonce_bytes ciphertext : Bytes)
    → length nonce_bytes ≡ 12
    → (not (ltb (length (nonce_bytes ++ ciphertext)) 12) ≡ true)
      × (take 12 (nonce_bytes ++ ciphertext) ≡ nonce_bytes)
      × (drop 12 (nonce_bytes ++ ciphertext) ≡ ciphertext)
framed nonce_bytes ciphertext l = (
  ground (arith, length-append nonce_bytes ciphertext, l),
  rw l at (take-append nonce_bytes ciphertext),
  rw l at (drop-append nonce_bytes ciphertext),
)

-- The crates undo what they did.
pub record Decrypts (x : Externals) : Type 0 where
  pub base64 : (bytes : Bytes) → x.base64_decode (x.base64_encode bytes) ≡ inr bytes
  pub aes :
      (key nonce plaintext ciphertext : Bytes)
      → x.aes_encrypt key nonce plaintext ≡ inr ciphertext
      → x.aes_decrypt key nonce ciphertext ≡ inr plaintext

module _ (x : Externals) (decrypts : Decrypts x) where
  pub decrypt_data_with_key-encrypt :
      (plain payload nonce : String) (key nonce_bytes : Bytes)
      → length nonce_bytes ≡ 12
      → x.from_utf8 (as_bytes plain) ≡ inr plain
      → encrypt_data_with_nonce x plain key nonce_bytes ≡ ok (payload, nonce)
      → decrypt_data_with_key x payload key ≡ ok plain
  unfolding encrypt_data_with_nonce decrypt_data_with_key
  decrypt_data_with_key-encrypt plain payload nonce key nonce_bytes l u h =
      let (ciphertext, e, made) = >>=-eq-ok _ _ h in
      let combined = nonce_bytes ++ ciphertext in
      let encoded = ap (λ p. p.0) (ok_injective made) in
      let (long, front, back) = framed nonce_bytes ciphertext l in
      rw
        (
          sym encoded,
          decrypts.base64 combined,
          long,
          front,
          back,
          decrypts.aes key nonce_bytes (as_bytes plain) ciphertext (map_err-eq-ok _ _ e),
          u,
        )
        refl

  -- An envelope that `encrypt_account_envelope` returned is decrypted by the same key and salt to the same
  -- account. The nonce has 12 bytes, and the account's JSON is read back by `serde_json` and as UTF-8.
  pub decrypt_account_envelope-encrypt :
      (j : Json) (get_encryption_key : Bytes → Bytes → Bytes) (account : UserAccount)
      (api_key : Bytes) (block_salt : String) (nonce_bytes : Bytes) (envelope : AccountEnvelope)
      (account_json : String)
      → length nonce_bytes ≡ 12
      → j.account_to_string account ≡ inr account_json
      → j.account_from_str account_json ≡ inr account
      → x.from_utf8 (as_bytes account_json) ≡ inr account_json
      → encrypt_account_envelope x j get_encryption_key account api_key block_salt nonce_bytes
        ≡ ok envelope
      → decrypt_account_envelope x j get_encryption_key envelope api_key block_salt ≡ ok account
  unfolding encrypt_account_envelope decrypt_account_envelope
  decrypt_account_envelope-encrypt j get_encryption_key account api_key block_salt nonce_bytes
        envelope account_json l written read u h =
      let (json, e₁, r₁) = >>=-eq-ok _ _ h in
      let same : json ≡ account_json = inr_injective (sym (map_err-eq-ok _ _ e₁) ∙ written) in
      let key = derive_envelope_key get_encryption_key api_key block_salt in
      let (pair, e₂, r₂) = >>=-eq-ok (encrypt_data_with_nonce x json key nonce_bytes) _ r₁ in
      let encrypted : encrypt_data_with_nonce x account_json key nonce_bytes ≡ ok (pair.0, pair.1) =
        rw same at e₂ in
      let kept = ap (λ env. env.encrypted_data) (ok_injective r₂) in
      rw
        (
          sym kept,
          decrypt_data_with_key-encrypt account_json pair.0 pair.1 key nonce_bytes l u encrypted,
          read,
        )
        refl

-- ===== src/Crypto/Encryption.antt =====
-- src/crypto/encryption.rs: AES-256-GCM with the nonce in front of the ciphertext, in base64.
use goud_chain.Prelude.{String, ◌++◌, length, take, drop, ltb, not}
use goud_chain.Errors.{
  Result, ok, ◌>>=◌, ◌>>◌, map_err, encryption_failed, base64_decoding_error, decryption_failed,
  utf8_error, guard,
}
use goud_chain.Constants.{nonce_size_bytes}
use goud_chain.Crypto.Externals.{Externals, Bytes, as_bytes}

module _ (x : Externals) where
  -- `encrypt_data_with_key` passes a random nonce.
  unfoldable pub encrypt_data_with_nonce : String → Bytes → Bytes → Result (String × String)
  encrypt_data_with_nonce plain encryption_key nonce_bytes = do
    ciphertext ←
        map_err encryption_failed (x.aes_encrypt encryption_key nonce_bytes (as_bytes plain))
    ok (x.base64_encode (nonce_bytes ++ ciphertext), x.hex_encode nonce_bytes)

  unfoldable pub decrypt_data_with_key : String → Bytes → Result String
  decrypt_data_with_key encrypted_payload encryption_key = do
    combined ← map_err base64_decoding_error (x.base64_decode encrypted_payload)
    guard (not (ltb (length combined) nonce_size_bytes)) decryption_failed
    let nonce = take nonce_size_bytes combined
    let ciphertext = drop nonce_size_bytes combined
    plaintext ← map_err (λ _. decryption_failed) (x.aes_decrypt encryption_key nonce ciphertext)
    map_err utf8_error (x.from_utf8 plaintext)

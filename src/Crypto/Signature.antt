-- ===== src/Crypto/Signature.antt =====
-- src/crypto/signature.rs: `verify_signature`.
use goud_chain.Prelude.{String, ◌==◌, length}
use goud_chain.Errors.{Result, ◌>>=◌, ◌>>◌, map_err, guard, hex_decoding_error, invalid_signature}
use goud_chain.Constants.{ed25519_public_key_size, ed25519_signature_size}
use goud_chain.Crypto.Externals.{Externals}

unfoldable pub verify_signature : Externals → String → String → String → Result (Unit {0})
verify_signature x message signature_hex public_key_hex = do
  pk_bytes ← map_err hex_decoding_error (x.hex_decode public_key_hex)
  guard (length pk_bytes == ed25519_public_key_size) invalid_signature
  verifying_key ← map_err (λ _. invalid_signature) (x.verifying_key pk_bytes)
  sig_bytes ← map_err hex_decoding_error (x.hex_decode signature_hex)
  guard (length sig_bytes == ed25519_signature_size) invalid_signature
  guard (x.verify verifying_key message sig_bytes) invalid_signature

-- ===== src/Crypto/ApiKey.antt =====
-- src/crypto/api_key.rs and src/crypto/timing_safe.rs. How long a comparison takes is not modelled.
use goud_chain.Prelude.{ℕ, zero, suc, ◌==◌, String, [], ◌∷◌, length, Bool}
use goud_chain.Errors.{Fallible}
use goud_chain.Constants.{api_key_size_bytes}
use goud_chain.Crypto.Externals.{Externals, Bytes}
use goud_chain.Crypto.Hkdf.{hash_api_key}
use goud_chain.Crypto.Mac.{constant_time_compare_bytes}

module _ (x : Externals) where
  unfoldable pub encode_api_key : Bytes → String
  encode_api_key api_key = x.base64_encode api_key

  unfoldable pub decode_api_key : String → Fallible Bytes
  decode_api_key api_key_str = x.base64_decode api_key_str

  pub dummy_hash_for_timing : Bytes → Bytes
  dummy_hash_for_timing api_key = hash_api_key x api_key

unfoldable pub validate_api_key : Bytes → Bool
validate_api_key api_key = length api_key == api_key_size_bytes

-- An array of one byte, repeated.
abbrev pub repeat : ℕ → ℕ → Bytes
repeat zero byte = []
repeat (suc n) byte = byte ∷ repeat n byte

unfoldable pub dummy_constant_time_compare : Bool
unfolding constant_time_compare_bytes
dummy_constant_time_compare = constant_time_compare_bytes (repeat 32 0) (repeat 32 1)

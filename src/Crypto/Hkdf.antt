-- ===== src/Crypto/Hkdf.antt =====
-- src/crypto/hkdf.rs: the key derivation and the hash of an API key.
pub mod Length
use goud_chain.Prelude.{
  ℕ, zero, suc, ◌+◌, ◌%◌, ltb, String, [], ◌∷◌, ◌++◌, length, take, if◌then◌else◌,
}
use goud_chain.Constants.{
  encryption_salt, hkdf_iterations, hkdf_fast_iterations, hkdf_context_encryption, hkdf_context_mac,
  hkdf_context_session_encryption,
}
use goud_chain.Crypto.Externals.{Externals, Bytes, as_bytes}

module _ (x : Externals) where
  -- `sha256(salt || ikm)`
  unfoldable pub hkdf_extract : Bytes → Bytes → Bytes
  hkdf_extract salt ikm = x.sha256 (salt ++ ikm)

  -- The body of the loop runs while `output` is shorter than `length`. The counter is a `u8`. Each
  -- round adds a digest, so `length` rounds are enough where digests are not empty.
  unfoldable pub expand_loop : ℕ → Bytes → Bytes → ℕ → Bytes → Bytes → ℕ → Bytes
  expand_loop zero prk info target output t counter = output
  expand_loop (suc fuel) prk info target output t counter =
      let t' = x.sha256 (t ++ (prk ++ (info ++ counter ∷ []))) in
      let rest = expand_loop fuel prk info target (output ++ t') t' ((counter + 1) % 256) in
      if ltb (length output) target then rest else output

  unfoldable pub hkdf_expand : Bytes → Bytes → ℕ → Bytes
  unfolding expand_loop
  hkdf_expand prk info target = take target (expand_loop target prk info target [] [] 1)

  unfoldable pub iterate : ℕ → Bytes → Bytes → Bytes → Bytes
  unfolding hkdf_extract hkdf_expand
  iterate zero salt info key = key
  iterate (suc n) salt info key = iterate n salt info (hkdf_expand (hkdf_extract salt key) info 32)

  unfoldable pub hkdf_with_iterations : Bytes → Bytes → Bytes → ℕ → Bytes
  hkdf_with_iterations ikm salt info iterations = iterate iterations salt info ikm

  pub derive_encryption_key : Bytes → Bytes → Bytes
  derive_encryption_key api_key salt =
      hkdf_with_iterations api_key salt (as_bytes hkdf_context_encryption) hkdf_fast_iterations

  pub derive_mac_key : Bytes → Bytes → Bytes
  derive_mac_key api_key salt =
      hkdf_with_iterations api_key salt (as_bytes hkdf_context_mac) hkdf_fast_iterations

  pub derive_session_encryption_key : Bytes → Bytes
  derive_session_encryption_key session_secret =
      hkdf_with_iterations session_secret (as_bytes encryption_salt)
        (as_bytes hkdf_context_session_encryption) hkdf_fast_iterations

  pub hash_api_key : Bytes → Bytes
  hash_api_key api_key =
      hkdf_with_iterations api_key (as_bytes encryption_salt) (as_bytes "api_key_hash_v2")
        hkdf_iterations

  unfoldable pub hash_api_key_hex : Bytes → String
  hash_api_key_hex api_key = x.hex_encode (hash_api_key api_key)

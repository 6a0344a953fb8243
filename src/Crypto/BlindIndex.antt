-- ===== src/Crypto/BlindIndex.antt =====
-- src/crypto/blind_index.rs: the index under which a block can be searched for an account.
use goud_chain.Prelude.{String, ◌+++◌, ◌++◌}
use goud_chain.Errors.{Result, ok, ◌>>=◌, map_err, internal}
use goud_chain.Crypto.Externals.{Externals, as_bytes}

module _ (x : Externals) where
  -- HMAC under both salts, of the key's hash, a bar and the context.
  unfoldable pub generate_blind_index_with_salt : String → String → String → String → Result String
  generate_blind_index_with_salt api_key_hash context user_salt block_salt = do
    let combined_salt = user_salt +++ block_salt
    let message = as_bytes api_key_hash ++ (as_bytes "|" ++ as_bytes context)
    result ←
        map_err (λ e. internal ("HMAC init failed: " +++ e))
          (x.hmac_sha256 (as_bytes combined_salt) message)
    ok (x.hex_encode result)

  unfoldable pub generate_account_blind_index_with_salt : String → String → Result String
  generate_account_blind_index_with_salt api_key_hash block_salt =
      generate_blind_index_with_salt api_key_hash "account_lookup" "" block_salt

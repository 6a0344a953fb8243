-- ===== src/Api/Auth.antt =====
-- src/api/auth.rs: session tokens, the Authorization header, and the check of a key's hash. The crate
-- `jsonwebtoken` is a parameter.
pub mod Sessions
use Prim.Native.String.{◌∷◌}
use Prim.Native.Char.{code}
use goud_chain.Prelude.{
  ℕ, ◌==◌, ltb, ℤ, ◌+ℤ◌, String, ◌+++◌, length, take, drop, ◌++◌, Bool, true, false, not, Option,
  none, some, inl, inr, if◌then◌else◌,
}
use goud_chain.Errors.{
  Result, ok, err, ◌>>=◌, ◌>>◌, Fallible, map_err, guard, ok_or, authentication_failed,
  unauthorized, internal,
}
use goud_chain.Constants.{nonce_size_bytes, session_expiry_seconds}
use goud_chain.Crypto.ApiKey.{decode_api_key, validate_api_key}
use goud_chain.Crypto.Externals.{Externals, Bytes}
use goud_chain.Crypto.Hkdf.{derive_session_encryption_key, hash_api_key}
use goud_chain.Crypto.Mac.{constant_time_compare_bytes}
use goud_chain.Storage.Bytes.{wrap_i64}

-- The two fields of `Config` that sessions read.
pub record Secrets : Type 0 where
  pub jwt_secret : Bytes
  pub session_secret : Bytes

pub record Claims : Type 0 where
  pub sub : String
  pub api_key_hash : String
  pub encrypted_api_key : String
  pub exp : ℤ
  pub iat : ℤ

-- `encode` with a secret, and `decode` with a secret and the checks to make, at a time. What the checks are
-- is the crate's, among them `Validation::default()`.
pub record Jwt : Type 1 where
  pub Validation : Type 0
  pub default_validation : Validation
  pub encode : Bytes → Claims → Fallible String
  pub decode : Bytes → Validation → ℤ → String → Fallible Claims

-- `strip_prefix`
unfoldable pub strip_prefix : String → String → Option String
strip_prefix String.[] s = some s
strip_prefix (String.◌∷◌ c p) String.[] = none
strip_prefix (String.◌∷◌ c p) (String.◌∷◌ d s) = if code c == code d then strip_prefix p s else none

pub data AuthMethod : Type 0 where
  api_key : Bytes → AuthMethod
  session_token : Claims → AuthMethod

module _ (x : Externals) (jwt : Jwt) (secrets : Secrets) where
  -- The last argument is the random nonce.
  unfoldable pub encrypt_api_key_for_jwt : Bytes → Bytes → Result String
  encrypt_api_key_for_jwt key nonce_bytes = do
    let key_bytes = derive_session_encryption_key x secrets.session_secret
    ciphertext ←
        map_err (λ e. internal ("Failed to encrypt API key: " +++ e))
          (x.aes_encrypt key_bytes nonce_bytes key)
    ok (x.base64_encode (nonce_bytes ++ ciphertext))

  unfoldable pub decrypt_api_key_from_jwt : String → Result Bytes
  decrypt_api_key_from_jwt encrypted_api_key = do
    let key_bytes = derive_session_encryption_key x secrets.session_secret
    combined ← map_err (λ _. authentication_failed) (x.base64_decode encrypted_api_key)
    guard (not (ltb (length combined) nonce_size_bytes)) authentication_failed
    let nonce = take nonce_size_bytes combined
    let ciphertext = drop nonce_size_bytes combined
    map_err (λ _. authentication_failed) (x.aes_decrypt key_bytes nonce ciphertext)

  -- The clock and the nonce are the last arguments.
  unfoldable pub generate_session_token : String → Bytes → String → ℤ → Bytes → Result String
  unfolding encrypt_api_key_for_jwt
  generate_session_token account_id key api_key_hash now nonce_bytes = do
    encrypted_api_key ← encrypt_api_key_for_jwt key nonce_bytes
    map_err (λ e. internal ("JWT encoding failed: " +++ e))
        (jwt.encode secrets.jwt_secret (record {
          sub = account_id;
          api_key_hash = api_key_hash;
          encrypted_api_key = encrypted_api_key;
          exp = wrap_i64 (now +ℤ session_expiry_seconds);
          iat = now;
        }))

  unfoldable pub verify_session_token : String → ℤ → Result Claims
  verify_session_token token now =
      map_err (λ e. unauthorized ("Invalid token: " +++ e))
        (jwt.decode secrets.jwt_secret jwt.default_validation now token)

  -- What is not a session token is a key in base64.
  abbrev pub read_api_key : String → Result AuthMethod
  read_api_key token = do
    key ← map_err (λ _. unauthorized "Invalid API key format") (decode_api_key x token)
    guard (validate_api_key key) (unauthorized "Invalid API key length")
    ok (api_key key)

  abbrev pub or_api_key : String → Result Claims → Result AuthMethod
  or_api_key token (ok claims) = ok (session_token claims)
  or_api_key token _ = read_api_key token

  abbrev pub read_token : ℤ → Option String → Result AuthMethod
  read_token now (some token) = or_api_key token (verify_session_token token now)
  read_token now none =
      err (unauthorized "Invalid Authorization header format. Expected: Bearer <token>")

  unfoldable pub read_authorization : String → ℤ → Result AuthMethod
  unfolding verify_session_token
  read_authorization auth_value now = read_token now (strip_prefix "Bearer " auth_value)

  -- The value of the header `authorization`, which may not be text.
  unfoldable pub extract_auth_from_headers : Option (Fallible String) → ℤ → Result AuthMethod
  unfolding read_authorization
  extract_auth_from_headers header now = do
    auth_header ← ok_or (unauthorized "Missing Authorization header") header
    auth_value ← map_err (λ _. unauthorized "Invalid Authorization header encoding") auth_header
    read_authorization auth_value now

  abbrev pub or_computed : Bytes → Option String → String
  or_computed key (some hash) = hash
  or_computed key none = x.hex_encode (hash_api_key x key)

  unfoldable pub verify_api_key_hash_precomputed :
      Option String → Bytes → String → Result (Unit {0})
  verify_api_key_hash_precomputed computed_hash_hex key expected_hash_hex = do
    computed_hash ←
        map_err (λ _. internal "Invalid computed hash format")
          (x.hex_decode (or_computed key computed_hash_hex))
    expected_hash ←
        map_err (λ _. unauthorized "Invalid hash format") (x.hex_decode expected_hash_hex)
    guard (constant_time_compare_bytes computed_hash expected_hash)
        (unauthorized "API key does not match")

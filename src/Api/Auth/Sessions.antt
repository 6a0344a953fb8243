-- ===== src/Api/Auth/Sessions.antt =====
-- Session tokens and keys in the Authorization header (src/api/auth.rs).
use text.Mathlib.TextLemmas.{cons-append}
use Prim.Native.String.append
use Prim.Native.String.{◌∷◌}
use Prim.Native.Char.{code}
use goud_chain.Prelude.{
  ==_refl, ℤ, ◌+ℤ◌, ◌≤ℤ◌, String, ◌+++◌, length, ◌++◌, some, inr, ◌≡◌, refl, sym, ap, ◌∙◌,
}
use goud_chain.Errors.{ok, map_err, map_err-eq-ok, >>=-eq-ok, ok_injective}
use goud_chain.Constants.{session_expiry_seconds}
use goud_chain.Crypto.Externals.{Externals, Bytes}
use goud_chain.Crypto.Hkdf.{derive_session_encryption_key}
use goud_chain.Domain.Envelope.RoundTrip.{Decrypts, framed}
use goud_chain.Storage.Bytes.{wrap_i64}
use goud_chain.Api.Auth.{
  Secrets, Claims, Jwt, session_token, strip_prefix, encrypt_api_key_for_jwt,
  decrypt_api_key_from_jwt, generate_session_token, verify_session_token, read_authorization,
  extract_auth_from_headers,
}

-- The documented behaviour of the default checks: a token is read with its secret until it expires.
pub record JwtLaws (jwt : Jwt) : Type 0 where
  pub decode-encode :
      (secret : Bytes) (claims : Claims) (token : String) (now : ℤ)
      → jwt.encode secret claims ≡ inr token
      → now ≤ℤ claims.exp
      → jwt.decode secret jwt.default_validation now token ≡ inr claims

pub strip_prefix-append : (p s : String) → strip_prefix p (p +++ s) ≡ some s
unfolding strip_prefix
strip_prefix-append String.[] s = ap some (append.nil s)
strip_prefix-append (c ∷ p) s =
    ap (strip_prefix (c ∷ p)) (cons-append c p s) ∙ rw (==_refl (code c)) (strip_prefix-append p s)

module _ (x : Externals) (jwt : Jwt) (secrets : Secrets) (laws : JwtLaws jwt) where
  module _ (decrypts : Decrypts x) where
    decrypt_api_key_from_jwt-encrypt :
        (key nonce_bytes : Bytes) (encrypted : String)
        → length nonce_bytes ≡ 12
        → encrypt_api_key_for_jwt x jwt secrets key nonce_bytes ≡ ok encrypted
        → decrypt_api_key_from_jwt x jwt secrets encrypted ≡ ok key
    unfolding encrypt_api_key_for_jwt decrypt_api_key_from_jwt
    decrypt_api_key_from_jwt-encrypt key nonce_bytes encrypted l h =
        let session_key = derive_session_encryption_key x secrets.session_secret in
        let (ciphertext, e, made) =
          >>=-eq-ok (map_err _ (x.aes_encrypt session_key nonce_bytes key)) _ h in
        let (long, front, back) = framed nonce_bytes ciphertext l in
        rw
          (
            sym (ok_injective made),
            decrypts.base64 (nonce_bytes ++ ciphertext),
            long,
            front,
            back,
            decrypts.aes session_key nonce_bytes key ciphertext (map_err-eq-ok _ _ e),
          )
          refl

    -- A session token that was made at a time is accepted in the header, by the same secrets, until it
    -- expires: what is accepted are claims of the account and the hash that were put in, and the key that
    -- they carry is decrypted to the key that was put in. The nonce has 12 bytes, the crates undo their
    -- encryption and their base64, and tokens are read as documented.
    pub generate_session_token_lem :
        (account_id : String) (key : Bytes) (api_key_hash : String) (now now' : ℤ)
        (nonce_bytes : Bytes) (token : String)
        → length nonce_bytes ≡ 12
        → now' ≤ℤ wrap_i64 (now +ℤ session_expiry_seconds)
        → generate_session_token x jwt secrets account_id key api_key_hash now nonce_bytes
          ≡ ok token
        → (claims : Claims) × (extract_auth_from_headers x jwt secrets
              (some (inr ("Bearer " +++ token)))
              now'
            ≡ ok (session_token claims))
          × (claims.sub ≡ account_id)
          × (claims.api_key_hash ≡ api_key_hash)
          × (decrypt_api_key_from_jwt x jwt secrets claims.encrypted_api_key ≡ ok key)
    unfolding generate_session_token extract_auth_from_headers read_authorization
        verify_session_token
    generate_session_token_lem account_id key api_key_hash now now' nonce_bytes token l live h =
        let (encrypted, sealed, h1) =
          >>=-eq-ok (encrypt_api_key_for_jwt x jwt secrets key nonce_bytes) _ h in
        let claims : Claims = record {
          sub = account_id;
          api_key_hash = api_key_hash;
          encrypted_api_key = encrypted;
          exp = wrap_i64 (now +ℤ session_expiry_seconds);
          iat = now;
        } in
        let written = map_err-eq-ok _ (jwt.encode secrets.jwt_secret claims) h1 in
        let read = laws.decode-encode secrets.jwt_secret claims token now' written live in
        (
          claims,
          rw (strip_prefix-append "Bearer " token, read) refl,
          refl,
          refl,
          decrypt_api_key_from_jwt-encrypt key nonce_bytes encrypted l sealed,
        )

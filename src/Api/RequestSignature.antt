-- ===== src/Api/RequestSignature.antt =====
-- src/api/request_signature.rs: signed requests, their time window and their nonces. Each reading of the
-- clock is an argument.
pub mod Window
pub mod Replay
use goud_chain.Prelude.{
  ℕ, ◌-◌, ℤ, pos, negsuc, ◌-ℤ◌, ltb_ℤ, String, ◌+++◌, show_ℤ, Bool, true, false, inl, inr,
  if◌then◌else◌, not,
}
use goud_chain.Errors.{
  Result, ok, err, panic, Fallible, map_err, guard, ◌>>=◌, ◌>>◌, authentication_failed,
  invalid_json,
}
use goud_chain.Constants.{request_timestamp_tolerance_seconds}
use goud_chain.Crypto.Externals.{Externals}
use goud_chain.Crypto.Signature.{verify_signature}
use goud_chain.Storage.Bytes.{wrap_i64}
use goud_chain.Storage.RocksDb.{RocksDb}
use goud_chain.Storage.Lru.{LruCache}
use goud_chain.Storage.Action as Action
use goud_chain.Storage.NonceStore.{NonceEntry, NonceStore, is_nonce_used, record_nonce}

pub record SignedRequest (T : Type 0) : Type 0 where
  pub payload : T
  pub nonce : String
  pub timestamp : ℤ
  pub signature : String
  pub public_key : String

-- What each step of `validate` reads from the clock.
pub record Clock : Type 0 where
  pub on_timestamp : ℤ
  pub on_check : ℤ
  pub on_record : ℤ

unfoldable pub validate_request_timestamp : ℤ → ℤ → Result (Unit {0})
validate_request_timestamp now timestamp =
    let age = wrap_i64 (now -ℤ timestamp) in
    if ltb_ℤ (pos request_timestamp_tolerance_seconds) age
    then err authentication_failed
    else if ltb_ℤ age (negsuc (request_timestamp_tolerance_seconds - 1))
    then err authentication_failed
    else ok tt

-- `map_err(|_| AuthenticationFailed)`
abbrev pub hide : Result (Unit {0}) → Result (Unit {0})
hide (err e) = err authentication_failed
hide m = m

module _ (x : Externals) (r : RocksDb) (c : LruCache NonceEntry) {T : Type 0}
    -- `serde_json::to_string`
    (to_json : T → Fallible String) where
  unfoldable pub canonical_message : SignedRequest T → Result String
  canonical_message q = do
    payload_json ←
        map_err (λ e. invalid_json ("Payload serialization failed: " +++ e)) (to_json q.payload)
    ok (payload_json +++ q.nonce +++ show_ℤ q.timestamp)

  -- `canonical_message` and `verify_signature`.
  unfoldable pub authentic : SignedRequest T → Result (Unit {0})
  authentic q = do
    message ← canonical_message q
    hide (verify_signature x message q.signature q.public_key)

  unfoldable pub validate : Clock → SignedRequest T → Action.Action (NonceStore r c) (Unit {0})
  validate t q = Action.◌>>◌ (Action.lift (validate_request_timestamp t.on_timestamp q.timestamp)) (
      Action.◌>>=◌ (is_nonce_used r c q.nonce t.on_check) (λ used.
        Action.◌>>◌ (Action.lift (guard (not used) authentication_failed))
          (Action.◌>>◌ (Action.lift (authentic q)) (record_nonce r c q.nonce t.on_record))))

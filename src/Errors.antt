-- ===== src/Errors.antt =====
-- src/types/errors.rs: `GoudChainError`, `Result` and the HTTP status of an error. An error that
-- wraps one of another library (`#[from]`) holds its text.
pub mod Display
use goud_chain.Prelude.{
  ℕ, ℤ, String, Bool, true, false, ◌⊎◌, inl, inr, ◌≡◌, refl, ap, Option, none, some,
}

pub data GoudChainError : Type 0 where
  encryption_failed : String → GoudChainError
  decryption_failed : GoudChainError
  invalid_signature : GoudChainError
  hex_decoding_error : String → GoudChainError
  base64_decoding_error : String → GoudChainError
  invalid_block_hash : ℕ → GoudChainError
  broken_chain : ℕ → GoudChainError
  invalid_merkle_root : ℕ → GoudChainError
  future_timestamp : ℤ → GoudChainError
  invalid_timestamp : ℕ → GoudChainError
  -- index, expected, actual
  invalid_validator : ℕ → String → String → GoudChainError
  -- node_id, expected_validator, block_number
  not_authorized_validator : String → String → ℕ → GoudChainError
  empty_blockchain : GoudChainError
  no_pending_data : GoudChainError
  peer_connection_failed : String → GoudChainError
  serialization_error : String → GoudChainError
  deserialization_error : String → GoudChainError
  save_failed : String → GoudChainError
  load_failed : String → GoudChainError
  directory_creation_failed : String → GoudChainError
  rocks_db_error : String → GoudChainError
  key_not_found : String → GoudChainError
  invalid_request_body : String → GoudChainError
  data_not_found : String → GoudChainError
  unauthorized : String → GoudChainError
  authentication_failed : GoudChainError
  -- retry_after, violation_count
  rate_limit_exceeded : ℕ → ℕ → GoudChainError
  -- ban_level, expires_at
  api_key_banned : String → ℤ → GoudChainError
  ip_address_banned : ℤ → GoudChainError
  -- actual_bytes, max_bytes
  payload_too_large : ℕ → ℕ → GoudChainError
  invalid_label : String → GoudChainError
  invalid_json : String → GoudChainError
  json_too_deep : ℕ → GoudChainError
  invalid_request_signature : String → GoudChainError
  nonce_reused : GoudChainError
  request_expired : GoudChainError
  config_error : String → GoudChainError
  audit_log_error : String → GoudChainError
  migration_not_found : String → GoudChainError
  migration_already_applied : String → GoudChainError
  migration_failed : String → GoudChainError
  invalid_migration_version : String → GoudChainError
  migration_rollback_failed : String → GoudChainError
  no_migrations_to_rollback : GoudChainError
  internal : String → GoudChainError
  utf8_error : String → GoudChainError
  io_error : String → GoudChainError

pub data Result {ℓ} (A : Type ℓ) : Type ℓ where
  -- the thread panics: an index out of range, `unwrap` of nothing, a remainder by zero
  panic : Result A
  err : GoudChainError → Result A
  ok : A → Result A

-- What a call of another library returns: the text of its error, or a value.
abbrev pub Fallible {ℓ} : Type ℓ → Type ℓ
Fallible A = String ⊎ A

-- `map_err`
abbrev pub map_err {ℓ} : {A : Type ℓ} → (String → GoudChainError) → Fallible A → Result A
map_err f (inl e) = err (f e)
map_err f (inr a) = ok a

-- `?` on a result: the first failure ends the method.
module _ {ℓ₁ ℓ₂} {Value : Type ℓ₁} {Next : Type ℓ₂} where
  infixl 5 ◌>>=◌
  abbrev pub ◌>>=◌ : Result Value → (Value → Result Next) → Result Next
  panic >>= next = panic
  err failure >>= next = err failure
  ok value >>= next = next value

  -- Inversion of a call that returned.
  pub >>=-eq-ok :
      (first : Result Value) (next : Value → Result Next) {answer : Next}
      → (first >>= next) ≡ ok answer
      → (value : Value) × (first ≡ ok value) × (next value ≡ ok answer)
  >>=-eq-ok panic next returned = cc
  >>=-eq-ok (err failure) next returned = cc
  >>=-eq-ok (ok value) next returned = (value, refl, returned)

-- A call whose value is `()`, followed by another.
infixl 5 ◌>>◌
abbrev pub ◌>>◌ {ℓ} : {Next : Type ℓ} → Result (Unit {0}) → Result Next → Result Next
first >> second = first >>= λ done. second

-- `ok_or`
abbrev pub ok_or {ℓ} : {A : Type ℓ} → GoudChainError → Option A → Result A
ok_or e none = err e
ok_or e (some a) = ok a

-- An index into a slice, or `unwrap`.
abbrev pub or_panic {ℓ} : {A : Type ℓ} → Option A → Result A
or_panic none = panic
or_panic (some a) = ok a

-- `if !condition { return Err(e) }`
abbrev pub guard : Bool → GoudChainError → Result (Unit {0})
guard false failure = err failure
guard true failure = ok tt

unfoldable pub status_code : GoudChainError → ℕ
status_code (invalid_request_body _) = 400
status_code (invalid_label _) = 400
status_code (invalid_json _) = 400
status_code (json_too_deep _) = 400
status_code (unauthorized _) = 401
status_code authentication_failed = 401
status_code decryption_failed = 401
status_code (invalid_request_signature _) = 401
status_code nonce_reused = 401
status_code request_expired = 401
status_code (data_not_found _) = 404
status_code (key_not_found _) = 404
status_code (payload_too_large _ _) = 413
status_code invalid_signature = 422
status_code (invalid_block_hash _) = 422
status_code (broken_chain _) = 422
status_code (invalid_merkle_root _) = 422
status_code (future_timestamp _) = 422
status_code (invalid_timestamp _) = 422
status_code (invalid_validator _ _ _) = 422
status_code (not_authorized_validator _ _ _) = 422
status_code (rate_limit_exceeded _ _) = 429
status_code (api_key_banned _ _) = 429
status_code (ip_address_banned _) = 429
status_code _ = 500

pub map_err-eq-ok {ℓ} :
    {A : Type ℓ} (f : String → GoudChainError) (m : Fallible A) {a : A}
    → map_err f m ≡ ok a
    → m ≡ inr a
map_err-eq-ok f (inl e) h = cc
map_err-eq-ok f (inr a) h = cc

pub guard-eq-ok : (b : Bool) (e : GoudChainError) {u : Unit {0}} → guard b e ≡ ok u → b ≡ true
guard-eq-ok true e h = refl
guard-eq-ok false e h = cc

or_else {ℓ} : {A : Type ℓ} → A → Result A → A
or_else d (ok a) = a
or_else d _ = d

pub ok_injective {ℓ} : {A : Type ℓ} {a b : A} → ok a ≡ ok b → a ≡ b
unfolding or_else
ok_injective {a} h = ap (or_else a) h

-- A result that is no value, and a split on a result.
abbrev pub IsFailure {ℓ} : {A : Type ℓ} → Result A → Type 0
IsFailure (ok a) = ⊥
IsFailure _ = Unit

pub Result-cases {ℓ} : {A : Type ℓ} (r : Result A) → ((a : A) × (r ≡ ok a)) ⊎ IsFailure r
Result-cases (ok a) = inl (a, refl)
Result-cases _ = inr tt

pub >>_unit : (m : Result (Unit {0})) → (m >> ok tt) ≡ m
>>_unit (ok a) = refl
>>_unit (err e) = refl
>>_unit panic = refl

pub >>_assoc : (m n k : Result (Unit {0})) → (m >> (n >> k)) ≡ ((m >> n) >> k)
>>_assoc (ok a) n k = refl
>>_assoc (err e) n k = refl
>>_assoc panic n k = refl

pub Fallible-cases {ℓ} :
    {A : Type ℓ} (m : Fallible A) → ((e : String) × (m ≡ inl e)) ⊎ ((a : A) × (m ≡ inr a))
Fallible-cases (inl e) = inl (e, refl)
Fallible-cases (inr a) = inr (a, refl)

from_inr {ℓ} : {A : Type ℓ} → A → Fallible A → A
from_inr d (inl e) = d
from_inr d (inr a) = a

pub inr_injective {ℓ} : {A : Type ℓ} {a b : A} → Path (Fallible A) (inr a) (inr b) → a ≡ b
unfolding from_inr
inr_injective {a} h = ap (from_inr a) h

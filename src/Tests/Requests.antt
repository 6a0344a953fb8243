-- ===== src/Tests/Requests.antt =====
-- Signed requests and their replays.
use goud_chain.Prelude.{
  ℕ, pos, ◌+ℤ◌, ◌-ℤ◌, ◌≤ℤ◌, String, [], ◌∷◌, none, inr, ◌≡◌, refl, ◌↔◌, arith, int_laws,
}
use goud_chain.Errors.{ok, err, Fallible, authentication_failed}
use goud_chain.Crypto.Signature.{verify_signature}
use goud_chain.Storage.Bytes.{i64_bits, i64_of_bits, wrap_i64}
use goud_chain.Storage.NonceStore.{NonceStore, is_nonce_used, check_cache, check_db, record_nonce}
use goud_chain.Api.RequestSignature.{
  SignedRequest, Clock, validate_request_timestamp, canonical_message, authentic, validate,
}
use goud_chain.Api.RequestSignature.Window.{validate_request_timestamp_iff}
use goud_chain.Api.RequestSignature.Replay.{
  after_requests, validate_replay, validate_replay_expired,
}
use goud_chain.Tests.Toy.{crates, disk, empty, empty_cache, lru}
use goud_chain.Tests.Laws.{disk_laws, lru_laws}

validate_request_timestamp_iff_example :
    (validate_request_timestamp (pos 1000) (pos 700) ≡ ok tt)
    ↔ ((pos 1000 ≤ℤ pos 700 +ℤ pos 300) × (pos 700 ≤ℤ pos 1000 +ℤ pos 300))
validate_request_timestamp_iff_example =
    validate_request_timestamp_iff (pos 1000) (pos 700) (omega arith) (omega arith) (omega arith)

abbrev to_json : String → Fallible String
to_json s = inr s

abbrev request : SignedRequest String
request = record {
  payload = "p";
  nonce = "n";
  timestamp = pos 1200;
  signature = "signature";
  public_key = "key";
}

abbrev other : SignedRequest String
other = record request { nonce = "m" }

abbrev at : ℕ → Clock
at now = record { on_timestamp = pos now; on_check = pos now; on_record = pos now }

abbrev fresh : NonceStore disk lru
fresh = record { db = empty; cache = empty_cache }

first_accepted : (validate crates disk lru to_json (at 1000) request fresh).0 ≡ ok tt
unfolding validate validate_request_timestamp wrap_i64 i64_bits i64_of_bits ◌-ℤ◌ is_nonce_used
    check_cache check_db authentic canonical_message verify_signature record_nonce
first_accepted = refl

expiry : pos 1000 +ℤ pos 300 ≡ pos 1300
unfolding ◌+ℤ◌
expiry = refl

validate_replay_example :
    (validate crates disk lru to_json (at 1299) request (
      after_requests crates disk lru to_json disk_laws lru_laws
        ((at 1100, other) ∷ [])
        (validate crates disk lru to_json (at 1000) request fresh).1)).0
    ≡ err authentication_failed
validate_replay_example =
    validate_replay crates disk lru to_json disk_laws lru_laws (at 1000) request fresh none
      ((at 1100, other) ∷ []) (at 1299) request refl first_accepted (omega int_laws)
      (rw expiry (refl, tt)) (rw expiry refl) refl

again : validate_request_timestamp (pos 1300) (pos 1200) ≡ ok tt
unfolding validate_request_timestamp wrap_i64 i64_bits i64_of_bits ◌-ℤ◌
again = refl

again_recorded :
    (record_nonce disk lru "n"
      (pos 1300)
      (is_nonce_used disk lru "n"
        (pos 1300)
        (validate crates disk lru to_json (at 1000) request fresh).1).1).0
    ≡ ok tt
unfolding record_nonce
again_recorded = refl

validate_replay_expired_example :
    (validate crates disk lru to_json
      (at 1300)
      request
      (validate crates disk lru to_json (at 1000) request fresh).1).0
    ≡ ok tt
validate_replay_expired_example =
    validate_replay_expired crates disk lru to_json disk_laws lru_laws (at 1000) request fresh none
      (at 1300) refl first_accepted (omega int_laws) (rw expiry refl) again again_recorded

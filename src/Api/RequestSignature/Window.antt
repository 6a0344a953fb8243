-- ===== src/Api/RequestSignature/Window.antt =====
-- The time window of a signed request (src/api/request_signature.rs).
use goud_chain.Prelude.{
  ℤ, pos, negsuc, ◌+ℤ◌, ◌-ℤ◌, ◌≤ℤ◌, ◌<ℤ◌, leb_ℤ, true, ◌&&◌, ◌≡◌, sym, ◌∙◌, ◌↔◌, arith,
}
use goud_chain.Errors.{ok}
use goud_chain.Storage.Bytes.{IsI64, wrap_i64, wrap_i64_small}
use goud_chain.Api.RequestSignature.{validate_request_timestamp}

validate_request_timestamp_wrapped :
    (now timestamp : ℤ)
    → (validate_request_timestamp now timestamp ≡ ok tt) ↔ (
        (leb_ℤ (wrap_i64 (now -ℤ timestamp)) (pos 300)
          && leb_ℤ (negsuc 299) (wrap_i64 (now -ℤ timestamp)))
        ≡ true)
unfolding validate_request_timestamp
validate_request_timestamp_wrapped now timestamp = (λ h. ground arith, λ h. ground arith)

difference_window :
    (now timestamp : ℤ)
    → ((leb_ℤ (now -ℤ timestamp) (pos 300) && leb_ℤ (negsuc 299) (now -ℤ timestamp)) ≡ true)
      ↔ ((now ≤ℤ timestamp +ℤ pos 300) × (timestamp ≤ℤ now +ℤ pos 300))
unfolding ◌-ℤ◌ ◌+ℤ◌
difference_window now timestamp = (λ h. ground arith, λ h. ground arith)

-- For every `i64` timestamp and every clock from 0 to 2 ^ 62, the timestamp is accepted exactly if it
-- and the clock are at most 300 seconds apart: the wrapping subtraction lets no distant time through.
pub validate_request_timestamp_iff :
    (now timestamp : ℤ)
    → IsI64 timestamp
    → pos 0 ≤ℤ now
    → now <ℤ pos 4611686018427387904
    → (validate_request_timestamp now timestamp ≡ ok tt)
      ↔ ((now ≤ℤ timestamp +ℤ pos 300) × (timestamp ≤ℤ now +ℤ pos 300))
validate_request_timestamp_iff now timestamp i l h =
    let same = wrap_i64_small now timestamp i l h in
    (
      λ e.
          (difference_window now timestamp).0
            (sym same ∙ (validate_request_timestamp_wrapped now timestamp).0 e),
      λ w.
          (validate_request_timestamp_wrapped now timestamp).1
            (same ∙ (difference_window now timestamp).1 w),
    )

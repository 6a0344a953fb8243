-- ===== src/Domain/Block/Timestamp.antt =====
-- `obfuscate_timestamp` (src/domain/block.rs) at a time after the epoch.
use goud_chain.Prelude.{
  ℕ, ◌+◌, ◌/◌, ◌*◌, ◌≤◌, ℤ, pos, negsuc, ◌+ℤ◌, ◌-ℤ◌, rem, ◌≤ℤ◌, int_laws, ◌≡◌, ap, sym, ◌∙◌, arith,
}
use goud_chain.Constants.{timestamp_tolerance_seconds, timestamp_jitter_seconds}
use goud_chain.Domain.Block.{obfuscate_timestamp}

-- The range that the program draws the jitter from.
abbrev pub IsJitter : ℤ → Type 0
IsJitter j = (negsuc 14399 ≤ℤ j) × (j ≤ℤ pos timestamp_jitter_seconds)

round_down : (now : ℕ) → pos now -ℤ rem (pos now) 86400 ≡ pos (86400 * (now / 86400))
unfolding rem ◌-ℤ◌
round_down now = ground arith

-- The stored time depends on the day alone: two times of one day give the same timestamp under the
-- same jitter, and, for a jitter in its range, a timestamp lies within the jitter's range around the start of its day.
pub obfuscate_timestamp_day :
    (now later : ℕ) (jitter : ℤ)
    → now / 86400 ≡ later / 86400
    → IsJitter jitter
    → (obfuscate_timestamp (pos now) jitter ≡ obfuscate_timestamp (pos later) jitter)
      × (pos (86400 * (now / 86400)) ≤ℤ obfuscate_timestamp (pos now) jitter +ℤ pos 14400)
      × (obfuscate_timestamp (pos now) jitter ≤ℤ pos (86400 * (now / 86400) + 14400))
unfolding obfuscate_timestamp
obfuscate_timestamp_day now later j e b = (
  ap (λ d. d +ℤ j) (round_down now ∙ ap (λ q. pos (86400 * q)) e ∙ sym (round_down later)),
  rw (round_down now) (omega int_laws),
  rw (round_down now) (omega int_laws),
)

-- Whatever jitter in its range is drawn, the timestamp of a block made at `now` is not beyond the tolerance of
-- validation at `now` or later.
pub obfuscate_timestamp-le-tolerance :
    (now later : ℕ) (jitter : ℤ)
    → now ≤ later
    → IsJitter jitter
    → obfuscate_timestamp (pos now) jitter ≤ℤ pos later +ℤ pos timestamp_tolerance_seconds
unfolding obfuscate_timestamp
obfuscate_timestamp-le-tolerance now later j p b = rw (round_down now) (omega int_laws)

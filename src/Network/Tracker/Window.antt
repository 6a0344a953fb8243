-- ===== src/Network/Tracker/Window.antt =====
-- The limit of `RateLimitTracker` (src/network/p2p.rs) over the messages of one window.

use goud_chain.Prelude.{
  ℕ, ◌+◌, ◌-◌, ◌%◌, ◌^◌, ◌≤◌, ◌<◌, ltb, leb, List, [], ◌∷◌, All, length, Bool-cases, true, false,
  inl, inr, ltb→lt, not_ltb→le, ◌≡◌, arith, if◌then◌else◌,
}
use Prim.Native.Nat.{min}
use goud_chain.Constants.{max_messages_per_minute}
use goud_chain.Network.Tracker.{RateLimitTracker, new_tracker, elapsed, check_and_increment}

-- How many of the messages at the given times are let through, one after the other.
unfoldable pub count_allowed : List ℕ → RateLimitTracker → ℕ
count_allowed [] t = 0
count_allowed (now ∷ times) t =
    let (allowed, t') = check_and_increment now t in
    (if allowed then 1 else 0) + count_allowed times t'

-- Times of a window: within 60 seconds of its start, on the `u64` clock.
abbrev pub IsWithin : ℕ → ℕ → Type 0
IsWithin start now = (start ≤ now) × (now < start + 60) × (now < 2 ^ 64)

elapsed_within : (start now : ℕ) → IsWithin start now → leb 60 (elapsed now start) ≡ false
unfolding elapsed
elapsed_within start now h =
    let e : (now + 2 ^ 64 - start) % 2 ^ 64 ≡ now - start = omega arith in ground (arith, e)

-- A message within the window does not move it.
check_within :
    (now : ℕ) (t : RateLimitTracker)
    → IsWithin t.window_start now
    → check_and_increment now t ≡ (
        if ltb t.message_count max_messages_per_minute
        then (true, record t { message_count = t.message_count + 1 })
        else (false, t))
unfolding check_and_increment
check_within now t h = rw (elapsed_within t.window_start now h)

count_allowed-min :
    (times : List ℕ) (t : RateLimitTracker)
    → t.message_count ≤ max_messages_per_minute
    → All (IsWithin t.window_start) times
    → count_allowed times t ≡ min (length times) (max_messages_per_minute - t.message_count)
unfolding count_allowed
count_allowed-min [] t c h = omega arith
count_allowed-min (now ∷ times) t c h =
    elim (Bool-cases (ltb t.message_count max_messages_per_minute)) [
      | inl e ↦
          let t' = record t { message_count = t.message_count + 1 } in
          let below : t.message_count < max_messages_per_minute = ltb→lt _ _ e in
          rw (check_within now t h.0, e)
            (omega (arith, count_allowed-min times t' (omega arith) h.1, below))
      | inr e ↦
          let full : max_messages_per_minute ≤ t.message_count = not_ltb→le _ _ e in
          rw (check_within now t h.0, e) (omega (arith, count_allowed-min times t c h.1, full))
    ]

-- Of the messages of one peer within a window, in any number and order, the first 100 are let through
-- and no more.
pub count_allowed_window :
    (start : ℕ) (times : List ℕ)
    → All (IsWithin start) times
    → count_allowed times (new_tracker start) ≡ min (length times) max_messages_per_minute
count_allowed_window start times h = count_allowed-min times (new_tracker start) (omega arith) h

-- A message that comes 60 seconds or more after the window's start is let through, whatever was
-- counted before, and begins a window of its own.
pub check_and_increment_reset :
    (now : ℕ) (t : RateLimitTracker)
    → t.window_start + 60 ≤ now
    → now < 2 ^ 64
    → check_and_increment now t ≡ (true, record { message_count = 1; window_start = now })
unfolding check_and_increment
check_and_increment_reset now t h k =
    let e : (now + 2 ^ 64 - t.window_start) % 2 ^ 64 ≡ now - t.window_start = omega arith in
    let late : leb 60 (elapsed now t.window_start) ≡ true = unfold elapsed in ground (arith, e) in
    rw late

-- ===== src/Network/Tracker.antt =====
-- src/network/p2p.rs: `RateLimitTracker`, the messages of one peer within a minute.
pub mod Window
use goud_chain.Prelude.{ℕ, ◌+◌, ◌-◌, ◌%◌, ◌^◌, ltb, leb, Bool, true, false, if◌then◌else◌}
use goud_chain.Constants.{max_messages_per_minute}

pub record RateLimitTracker : Type 0 where
  pub message_count : ℕ
  pub window_start : ℕ

abbrev pub new_tracker : ℕ → RateLimitTracker
new_tracker now = record { message_count = 0; window_start = now }

-- `now - self.window_start` on a `u64`
unfoldable pub elapsed : ℕ → ℕ → ℕ
elapsed now start = (now + 2 ^ 64 - start) % 2 ^ 64

-- The reset of the window after 60 seconds.
unfoldable pub roll_window : ℕ → RateLimitTracker → RateLimitTracker
unfolding elapsed
roll_window now t = if leb 60 (elapsed now t.window_start) then new_tracker now else t

unfoldable pub count_message : RateLimitTracker → Bool × RateLimitTracker
count_message t =
    if ltb t.message_count max_messages_per_minute
    then (true, record t { message_count = t.message_count + 1 })
    else (false, t)

unfoldable pub check_and_increment : ℕ → RateLimitTracker → Bool × RateLimitTracker
unfolding roll_window count_message
check_and_increment now t = count_message (roll_window now t)

-- ===== src/Storage/Bans.antt =====
-- src/storage/rate_limit_store.rs: `BanLevel`, `BanRecord` and `ViolationRecord`. The clock is an
-- argument of each method that reads it.
use mathlib.Core.Option as Option
use goud_chain.Prelude.{
  ℕ, ◌+◌, ◌%◌, ◌^◌, ltb, ℤ, pos, ◌+ℤ◌, leb_ℤ, List, [], ◌∷◌, ◌++◌, length, Bool, true, false,
  if◌then◌else◌,
}
use goud_chain.Constants.{violation_cooldown_seconds, ban_write_5min_seconds, ban_write_1hr_seconds}

pub data BanLevel : Type 0 where
  none warning write_block_5_min write_block_1_hr permanent_write_ban complete_blacklist : BanLevel

unfoldable pub duration_seconds : BanLevel → Option.Option ℕ
duration_seconds none = Option.none
duration_seconds warning = Option.some violation_cooldown_seconds
duration_seconds write_block_5_min = Option.some ban_write_5min_seconds
duration_seconds write_block_1_hr = Option.some ban_write_1hr_seconds
duration_seconds permanent_write_ban = Option.none
duration_seconds complete_blacklist = Option.none

unfoldable pub blocks_writes : BanLevel → Bool
blocks_writes none = false
blocks_writes warning = false
blocks_writes _ = true

unfoldable pub blocks_reads : BanLevel → Bool
blocks_reads complete_blacklist = true
blocks_reads _ = false

unfoldable pub escalate : BanLevel → BanLevel
escalate none = write_block_5_min
escalate warning = write_block_5_min
escalate write_block_5_min = write_block_1_hr
escalate write_block_1_hr = permanent_write_ban
escalate permanent_write_ban = complete_blacklist
escalate complete_blacklist = complete_blacklist

pub record ViolationRecord : Type 0 where
  pub count : ℕ
  pub last_violation_timestamp : ℤ
  pub violation_timestamps : List ℤ

abbrev pub new_violations : ViolationRecord
new_violations = record { count = 0; last_violation_timestamp = pos 0; violation_timestamps = [] }

-- `n + 1` on a `u32`
abbrev pub next_u32 : ℕ → ℕ
next_u32 n = (n + 1) % 2 ^ 32

-- `remove(0)` where there are more than five.
abbrev pub last_five : List ℤ → List ℤ
last_five [] = []
last_five (t ∷ ts) = if ltb 5 (length (t ∷ ts)) then ts else t ∷ ts

unfoldable pub add_violation : ℤ → ViolationRecord → ViolationRecord
add_violation now v = record {
  count = next_u32 v.count;
  last_violation_timestamp = now;
  violation_timestamps = last_five (v.violation_timestamps ++ now ∷ []);
}

-- `expires_at` is none for a permanent ban.
pub record BanRecord : Type 0 where
  pub level : BanLevel
  pub expires_at : Option.Option ℤ
  pub created_at : ℤ

unfoldable pub new_ban : ℤ → BanLevel → BanRecord
unfolding duration_seconds
new_ban now level = record {
  level = level;
  expires_at = Option.map (λ dur. now +ℤ pos dur) (duration_seconds level);
  created_at = now;
}

unfoldable pub is_expired : ℤ → BanRecord → Bool
is_expired now ban = elim ban.expires_at [
  | Option.some expiry ↦ leb_ℤ expiry now
  | Option.none ↦ false
]

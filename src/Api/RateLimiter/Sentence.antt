-- ===== src/Api/RateLimiter/Sentence.antt =====
-- What the penalties of src/api/rate_limiter.rs are to be.
use goud_chain.Prelude.{
  ℕ, zero, suc, ◌+◌, ◌<◌, ◌^◌, ℤ, pos, ◌+ℤ◌, String, true, some, inr, ◌≡◌, refl, arith,
}
use goud_chain.Constants.{ban_ip_24hr_seconds}
use goud_chain.Storage.Bytes.{i64_to_le_bytes}
use goud_chain.Storage.Codec.{Codec}
use goud_chain.Storage.RocksDb.{RocksDb}
use goud_chain.Storage.Lru.{LruCache}
use goud_chain.Storage.Bans.{
  write_block_5_min, write_block_1_hr, permanent_write_ban, complete_blacklist, ViolationRecord,
  BanRecord, escalate, add_violation, new_ban,
}
use goud_chain.Storage.RateLimitStore.{RateLimitEntry, Limits, ban_key, ip_ban_key}
use goud_chain.Storage.RateLimitStore.Records.{HasBan}
use goud_chain.Api.RateLimiter.{RateLimitResult, warned, blocked, LimitClock, ban_for}

-- The answer to a request above the limit, by the number of violations before it.
abbrev pub sentence : ℕ → ℕ → RateLimitResult
sentence limit zero = warned 30 1 limit 0
sentence limit (suc zero) = blocked write_block_5_min 300 2
sentence limit (suc (suc zero)) = blocked write_block_1_hr 3600 3
sentence limit (suc (suc (suc zero))) = blocked permanent_write_ban 31536000 4
sentence limit (suc (suc (suc (suc n)))) =
    blocked complete_blacklist 31536000 (suc (suc (suc (suc n))) + 1)

pub ban_for_blacklist : (n : ℕ) → 4 < n → ban_for n ≡ (complete_blacklist, true)
unfolding ban_for
ban_for_blacklist n h = ground arith

-- The ladder of bans that `check_limit` writes out is the one of `BanLevel::escalate`: from the second
-- violation on, the level of one more violation is the escalation of the level before it.
pub ban_for-escalate : (n : ℕ) → (ban_for (n + 3)).0 ≡ escalate (ban_for (n + 2)).0
unfolding ban_for escalate
ban_for-escalate zero = refl
ban_for-escalate (suc zero) = refl
ban_for-escalate (suc (suc zero)) = refl
ban_for-escalate (suc (suc (suc n))) =
    rw
      (
        ban_for_blacklist (suc (suc (suc n)) + 3) (omega arith),
        ban_for_blacklist (suc (suc (suc n)) + 2) (omega arith),
      )
      refl

pub count-add_violation :
    (now : ℤ) (v : ViolationRecord)
    → v.count + 1 < 2 ^ 32
    → (add_violation now v).count ≡ v.count + 1
unfolding add_violation
count-add_violation now v h = omega arith

module _ (r : RocksDb) (c : LruCache RateLimitEntry) (violation_codec : Codec ViolationRecord)
    (ban_codec : Codec BanRecord) where
  -- From the fifth violation on the address is banned for a day.
  abbrev pub IsAddressPenalised : String → LimitClock → ℕ → Limits r.Db c.Cache → Type 0
  IsAddressPenalised ip_hash t (suc (suc (suc n))) after =
      r.get after.db (ip_ban_key ip_hash)
      ≡ inr (some (i64_to_le_bytes (t.on_ip_ban +ℤ pos ban_ip_24hr_seconds)))
  IsAddressPenalised ip_hash t _ after = Unit

  -- The bans after a penalty: none is stored for a first violation.
  abbrev pub IsPenalised :
      String → String → LimitClock → ℕ → Limits r.Db c.Cache → Limits r.Db c.Cache → Type 0
  IsPenalised api_key_hash ip_hash t zero before after =
      r.get after.db (ban_key api_key_hash) ≡ r.get before.db (ban_key api_key_hash)
  IsPenalised api_key_hash ip_hash t (suc n) before after =
      HasBan r c violation_codec ban_codec api_key_hash (new_ban t.on_apply (ban_for (suc n + 1)).0)
        after
      × IsAddressPenalised ip_hash t n after

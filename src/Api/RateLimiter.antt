-- ===== src/Api/RateLimiter.antt =====
-- src/api/rate_limiter.rs: `RateLimiter`, which limits the requests of an API key and penalises those
-- above the limit. Each reading of the clock is a field of `LimitClock`.
pub mod Sentence
pub mod Penalties
pub mod Others
pub mod Blacklist
use goud_chain.Prelude.{
  ℕ, ◌-◌, ◌*◌, ◌==◌, ltb, ℤ, pos, ◌+ℤ◌, ◌-ℤ◌, pos_part, String, ◌+++◌, show, show_ℤ, str_eq, List,
  [], ◌∷◌, any, Bool, true, false, if◌then◌else◌, Option, none, some, unwrap_or,
}
use goud_chain.Constants.{
  rate_limit_write_per_second, rate_limit_read_per_second, rate_limit_window_seconds,
  violation_cooldown_seconds,
}
use goud_chain.Errors.{Result, ok, err, panic}
use goud_chain.Crypto.Externals.{Externals, as_bytes}
use goud_chain.Crypto.Hkdf.{hash_api_key_hex}
use goud_chain.Storage.Bytes.{wrap_i64}
use goud_chain.Storage.Codec.{Codec}
use goud_chain.Storage.RocksDb.{RocksDb}
use goud_chain.Storage.Lru.{LruCache}
use goud_chain.Storage.Action.{Action, pure, ◌>>=◌, ◌>>◌}
use goud_chain.Storage.Bans.{
  BanLevel, write_block_5_min, write_block_1_hr, permanent_write_ban, complete_blacklist, warning,
  ViolationRecord, BanRecord, duration_seconds, blocks_writes, blocks_reads,
}
use goud_chain.Storage.RateLimitStore.{
  RateLimitEntry, RateLimitStore, increment_request_count, get_violations, record_violation,
  apply_ban, get_ban_status, ban_ip, is_ip_banned,
}

pub data RateLimitResult : Type 0 where
  -- limit, remaining, reset_at
  allowed : ℕ → ℕ → ℤ → RateLimitResult
  -- cooldown_secs, violation_count, limit, remaining
  warned : ℕ → ℕ → ℕ → ℕ → RateLimitResult
  -- ban_level, retry_after, violation_count
  blocked : BanLevel → ℕ → ℕ → RateLimitResult

pub record LimitClock : Type 0 where
  pub on_bypass : ℤ
  pub on_ip : ℤ
  pub on_ban : ℤ
  pub on_retry : ℤ
  pub on_count : ℤ
  pub on_reset : ℤ
  pub on_violation : ℤ
  pub on_apply : ℤ
  pub on_ip_ban : ℤ

abbrev pub blocks : Bool → BanLevel → Bool
blocks is_write level = if is_write then blocks_writes level else blocks_reads level

abbrev pub limit_of : Bool → ℕ
limit_of is_write = if is_write then rate_limit_write_per_second else rate_limit_read_per_second

abbrev pub one_year : ℕ
one_year = 86400 * 365

abbrev pub time_left : ℤ → Option ℤ → ℕ
time_left now (some expiry) = pos_part (wrap_i64 (expiry -ℤ now))
time_left now none = one_year

-- The ban of the second violation and of each later one, and whether the address is banned too.
unfoldable pub ban_for : ℕ → BanLevel × Bool
ban_for count =
    if count == 2
    then (write_block_5_min, false)
    else if count == 3
    then (write_block_1_hr, false)
    else if count == 4
    then (permanent_write_ban, false)
    else (complete_blacklist, true)

unfoldable pub hash_ip : Externals → String → String
hash_ip x ip = hash_api_key_hex x (as_bytes ip)

module _ (x : Externals) (r : RocksDb) (c : LruCache RateLimitEntry)
    (violation_codec : Codec ViolationRecord) (ban_codec : Codec BanRecord) where
  abbrev pub Limiter : Type 0 → Type 0
  Limiter A = Action (RateLimitStore r c violation_codec ban_codec) A

  abbrev pub ban_ip_if : Bool → String → ℤ → Limiter (Unit {0})
  ban_ip_if true ip_hash now = ban_ip r c violation_codec ban_codec ip_hash now
  ban_ip_if false ip_hash now = pure tt

  -- The ban of a key with this number of violations.
  unfoldable pub apply_penalty : String → String → LimitClock → ℕ → Limiter RateLimitResult
  apply_penalty api_key_hash ip_hash t count = do
    let (level, should_ban_ip) = ban_for count
    apply_ban r c violation_codec ban_codec api_key_hash level t.on_apply
    ban_ip_if should_ban_ip ip_hash t.on_ip_ban
    pure (blocked level (unwrap_or one_year (duration_seconds level)) count)

  abbrev pub penalty : String → String → LimitClock → ℕ → ℕ → Limiter RateLimitResult
  penalty api_key_hash ip_hash t limit count =
      if count == 1
      then pure (warned violation_cooldown_seconds 1 limit 0)
      else apply_penalty api_key_hash ip_hash t count

  -- A request above the limit.
  unfoldable pub penalise : String → String → LimitClock → ℕ → Limiter RateLimitResult
  penalise api_key_hash ip_hash t limit = do
    violations ← record_violation r c violation_codec ban_codec api_key_hash t.on_violation
    penalty api_key_hash ip_hash t limit violations.count

  abbrev pub judge_count : String → String → LimitClock → ℕ → ℕ → Limiter RateLimitResult
  judge_count api_key_hash ip_hash t limit current_count =
      if ltb limit current_count
      then penalise api_key_hash ip_hash t limit
      else pure
          (allowed limit (limit - current_count) (t.on_reset +ℤ pos rate_limit_window_seconds))

  unfoldable pub check_count : String → String → Bool → LimitClock → Limiter RateLimitResult
  check_count api_key_hash ip_hash is_write t = do
    current_count ← increment_request_count r c violation_codec ban_codec api_key_hash t.on_count
    judge_count api_key_hash ip_hash t (limit_of is_write) current_count

  -- A ban that blocks this kind of request.
  unfoldable pub refuse : String → LimitClock → BanRecord → Limiter RateLimitResult
  refuse api_key_hash t ban = do
    violations ← get_violations r c violation_codec ban_codec api_key_hash
    pure (blocked ban.level (time_left t.on_retry ban.expires_at) violations.count)

  abbrev pub judge_ban :
      String → String → Bool → LimitClock → Option BanRecord → Limiter RateLimitResult
  judge_ban api_key_hash ip_hash is_write t none = check_count api_key_hash ip_hash is_write t
  judge_ban api_key_hash ip_hash is_write t (some ban) =
      if blocks is_write ban.level
      then refuse api_key_hash t ban
      else check_count api_key_hash ip_hash is_write t

  unfoldable pub check_key : String → String → Bool → LimitClock → Limiter RateLimitResult
  check_key api_key_hash ip_hash is_write t = do
    status ← get_ban_status r c violation_codec ban_codec api_key_hash t.on_ban
    judge_ban api_key_hash ip_hash is_write t status

  abbrev pub judge_ip : String → String → Bool → LimitClock → Bool → Limiter RateLimitResult
  judge_ip api_key_hash ip_hash is_write t true = pure (blocked complete_blacklist 86400 5)
  judge_ip api_key_hash ip_hash is_write t false = check_key api_key_hash ip_hash is_write t

  unfoldable pub check_ip : String → String → Bool → LimitClock → Limiter RateLimitResult
  check_ip api_key_hash ip_hash is_write t = do
    banned ← is_ip_banned r c violation_codec ban_codec ip_hash t.on_ip
    judge_ip api_key_hash ip_hash is_write t banned

  -- The first argument are the keys that bypass the limits.
  unfoldable pub check_limit :
      List String → String → String → Bool → LimitClock → Limiter RateLimitResult
  check_limit bypass_keys api_key_hash client_ip is_write t =
      if any (λ k. str_eq k api_key_hash) bypass_keys
      then pure (allowed 9999 9999 (t.on_bypass +ℤ pos 60))
      else check_ip api_key_hash (hash_ip x client_ip) is_write t

-- What the routes take for an answer: where the check fails they let the request through.
abbrev pub allow_on_error : ℕ → ℤ → Result RateLimitResult → Result RateLimitResult
allow_on_error limit now (ok result) = ok result
allow_on_error limit now (err e) = ok (allowed limit limit (now +ℤ pos 60))
allow_on_error limit now panic = panic

-- `{:?}` of a level
abbrev pub show_level : BanLevel → String
show_level BanLevel.none = "None"
show_level warning = "Warning"
show_level write_block_5_min = "WriteBlock5Min"
show_level write_block_1_hr = "WriteBlock1Hr"
show_level permanent_write_ban = "PermanentWriteBan"
show_level complete_blacklist = "CompleteBlacklist"

-- The HTTP headers of a result; the clock is read where a warning is given.
unfoldable pub create_headers : ℤ → RateLimitResult → List (String × String)
create_headers now (allowed limit remaining reset_at) =
    ("X-RateLimit-Limit", show limit)
    ∷ ("X-RateLimit-Remaining", show remaining)
    ∷ ("X-RateLimit-Reset", show_ℤ reset_at)
    ∷ []
create_headers now (warned cooldown_secs violation_count limit remaining) =
    ("X-RateLimit-Limit", show limit)
    ∷ ("X-RateLimit-Remaining", show remaining)
    ∷ ("X-RateLimit-Reset", show_ℤ (now +ℤ pos cooldown_secs))
    ∷ ("X-RateLimit-Violation", show violation_count)
    ∷ (
      "X-RateLimit-Warning",
      "Rate limit exceeded. "
          +++ show cooldown_secs
          +++ "s cooldown applied (violation #"
          +++ show violation_count
          +++ "). Repeated violations will result in temporary bans.",
    )
    ∷ []
create_headers now (blocked ban_level retry_after violation_count) =
    ("Retry-After", show retry_after)
    ∷ ("X-RateLimit-Violation", show violation_count)
    ∷ ("X-RateLimit-Ban-Level", show_level ban_level)
    ∷ []

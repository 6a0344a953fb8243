-- ===== src/Api/RateLimiter/Blacklist.antt =====
-- Blacklisted keys (src/api/rate_limiter.rs). The database may fail at any point.
use goud_chain.Prelude.{
  ℕ, ℤ, pos, ◌+ℤ◌, ◌⊎◌, String, str_eq, eq_iff, List, [], ◌∷◌, any, Bool, true, false, Bool-cases,
  inl, inr, ◌≡◌, refl,
}
use goud_chain.Errors.{GoudChainError, Result, ok, err, panic}
use goud_chain.Crypto.Externals.{Externals}
use goud_chain.Storage.Codec.{Codec}
use goud_chain.Storage.RocksDb.{RocksDb, RocksDbLaws}
use goud_chain.Storage.Lru.{LruCache}
use goud_chain.Storage.Action.{Action, next, Keeps, >>=-Keeps}
use goud_chain.Storage.Bans.{
  BanLevel, complete_blacklist, ViolationRecord, BanRecord, new_ban, is_expired, blocks_writes,
  blocks_reads, duration_seconds,
}
use goud_chain.Storage.RateLimitStore.{
  RateLimitEntry, RateLimitStore, Limits, get_violations, is_ip_banned,
}
use goud_chain.Storage.RateLimitStore.Records.{HasBan, get_ban_status-HasBan}
use goud_chain.Storage.RateLimitStore.Permanent.{Stands, is_ip_banned-Keeps}
use goud_chain.Api.RateLimiter.Others.{refuse-Keeps, check_key-Keeps}
use goud_chain.Api.RateLimiter.{
  allow_on_error, RateLimitResult, allowed, warned, blocked, LimitClock, Limiter, blocks, hash_ip,
  refuse, check_key, judge_ip, check_ip, check_limit,
}

-- The check does not let the request through: it blocks it, or it fails.
abbrev pub IsRefused : Result RateLimitResult → Type 0
IsRefused (ok (allowed _ _ _)) = ⊥
IsRefused (ok (warned _ _ _ _)) = ⊥
IsRefused _ = Unit

-- The route blocks the request; or the check gave an error, for which the route lets the request
-- through at its limit, or it panicked.
abbrev pub IsBlockedUnlessFailed : ℕ → ℤ → Result RateLimitResult → Type 0
IsBlockedUnlessFailed limit now answer =
    ((level : BanLevel) × (retry_after violation_count : ℕ) × (allow_on_error limit now answer
        ≡ ok (blocked level retry_after violation_count)))
    ⊎ (((e : GoudChainError) × (answer ≡ err e)
          × (allow_on_error limit now answer ≡ ok (allowed limit limit (now +ℤ pos 60))))
        ⊎ (answer ≡ panic))

IsRefused-IsBlockedUnlessFailed :
    (limit : ℕ) (now : ℤ) (answer : Result RateLimitResult)
    → IsRefused answer
    → IsBlockedUnlessFailed limit now answer
IsRefused-IsBlockedUnlessFailed limit now (ok (blocked level retry_after violation_count)) h =
    inl (level, retry_after, violation_count, refl)
IsRefused-IsBlockedUnlessFailed limit now (ok (allowed _ _ _)) h = absurd h
IsRefused-IsBlockedUnlessFailed limit now (ok (warned _ _ _ _)) h = absurd h
IsRefused-IsBlockedUnlessFailed limit now (err e) h = inr (inl (e, refl, refl))
IsRefused-IsBlockedUnlessFailed limit now panic h = inr (inr refl)

-- A request: the hash of its key, the address it comes from, whether it writes, and its clock.
pub record LimitRequest : Type 0 where
  pub api_key_hash : String
  pub client_ip : String
  pub is_write : Bool
  pub clock : LimitClock

module _ (x : Externals) (r : RocksDb) (c : LruCache RateLimitEntry)
    (violation_codec : Codec ViolationRecord) (ban_codec : Codec BanRecord) where
  abbrev pub check :
      List String
      → LimitRequest
      → Action (RateLimitStore r c violation_codec ban_codec) RateLimitResult
  check bypass_keys q =
      check_limit x r c violation_codec ban_codec bypass_keys q.api_key_hash q.client_ip q.is_write
        q.clock

  -- Requests that are checked one after the other.
  abbrev pub after_checks :
      List String → List LimitRequest → Limits r.Db c.Cache → Limits r.Db c.Cache
  after_checks bypass_keys [] s = s
  after_checks bypass_keys (q ∷ rest) s = after_checks bypass_keys rest (check bypass_keys q s).1

  next-IsRefused :
      {A : Type 0} (p : Result A × Limits r.Db c.Cache)
      (f : A → Limiter x r c violation_codec ban_codec RateLimitResult)
      → ((a : A) (s : Limits r.Db c.Cache) → IsRefused (f a s).0)
      → IsRefused (next p f).0
  next-IsRefused (ok a, s) f h = h a s
  next-IsRefused (err e, s) f h = tt
  next-IsRefused (panic, s) f h = tt

  refuse-IsRefused :
      (api_key_hash : String) (t : LimitClock) (found : BanRecord) (s : Limits r.Db c.Cache)
      → IsRefused (refuse x r c violation_codec ban_codec api_key_hash t found s).0
  unfolding refuse
  refuse-IsRefused api_key_hash t found s =
      next-IsRefused (get_violations r c violation_codec ban_codec api_key_hash s) _ (λ _ _. tt)

  module _ (db_laws : RocksDbLaws r) (banned_key : String) (since : ℤ) where
    abbrev blacklist : BanRecord
    blacklist = new_ban since complete_blacklist

    abbrev Barred : Limits r.Db c.Cache → Type 0
    Barred = Stands r c violation_codec ban_codec db_laws banned_key blacklist

    -- What a check of the banned key gives, and what it leaves.
    abbrev IsBarred : Result RateLimitResult × Limits r.Db c.Cache → Type 0
    IsBarred (answer, s) = IsRefused answer × Barred s

    blacklist_stands : (now : ℤ) → is_expired now blacklist ≡ false
    unfolding is_expired new_ban duration_seconds
    blacklist_stands now = refl

    blacklist_blocks : (is_write : Bool) → blocks is_write blacklist.level ≡ true
    unfolding new_ban blocks_writes blocks_reads
    blacklist_blocks true = refl
    blacklist_blocks false = refl

    check_key-IsBarred :
        (ip_hash : String) (is_write : Bool) (t : LimitClock) (s : Limits r.Db c.Cache)
        → Barred s
        → IsBarred (check_key x r c violation_codec ban_codec banned_key ip_hash is_write t s)
    unfolding check_key
    check_key-IsBarred ip_hash is_write t s h =
        rw
          (
            get_ban_status-HasBan r c violation_codec ban_codec banned_key t.on_ban blacklist s h
                (blacklist_stands t.on_ban),
            blacklist_blocks is_write,
          )
          (
            refuse-IsRefused banned_key t blacklist s,
            refuse-Keeps x r c violation_codec ban_codec db_laws banned_key blacklist banned_key t
                blacklist s h,
          )

    judge_ip-IsBarred :
        (ip_hash : String) (is_write : Bool) (t : LimitClock) (banned : Bool)
        (s : Limits r.Db c.Cache)
        → Barred s
        → IsBarred (judge_ip x r c violation_codec ban_codec banned_key ip_hash is_write t banned s)
    judge_ip-IsBarred ip_hash is_write t true s h = (tt, h)
    judge_ip-IsBarred ip_hash is_write t false s h = check_key-IsBarred ip_hash is_write t s h

    next-IsBarred :
        {A : Type 0} (p : Result A × Limits r.Db c.Cache)
        (f : A → Limiter x r c violation_codec ban_codec RateLimitResult)
        → Barred p.1
        → ((a : A) (s : Limits r.Db c.Cache) → Barred s → IsBarred (f a s))
        → IsBarred (next p f)
    next-IsBarred (ok a, s) f h k = k a s h
    next-IsBarred (err e, s) f h k = (tt, h)
    next-IsBarred (panic, s) f h k = (tt, h)

    check_ip-IsBarred :
        (ip_hash : String) (is_write : Bool) (t : LimitClock) (s : Limits r.Db c.Cache)
        → Barred s
        → IsBarred (check_ip x r c violation_codec ban_codec banned_key ip_hash is_write t s)
    unfolding check_ip
    check_ip-IsBarred ip_hash is_write t s h =
        next-IsBarred (is_ip_banned r c violation_codec ban_codec ip_hash t.on_ip s) _
          (is_ip_banned-Keeps r c violation_codec ban_codec db_laws banned_key blacklist ip_hash
            t.on_ip s h)
          (judge_ip-IsBarred ip_hash is_write t)

    check_ip-Keeps :
        (api_key_hash ip_hash : String) (is_write : Bool) (t : LimitClock)
        → str_eq api_key_hash banned_key ≡ false
        → Keeps Barred (check_ip x r c violation_codec ban_codec api_key_hash ip_hash is_write t)
    unfolding check_ip
    check_ip-Keeps api_key_hash ip_hash is_write t ne =
        >>=-Keeps Barred (is_ip_banned r c violation_codec ban_codec ip_hash t.on_ip) _
          (is_ip_banned-Keeps r c violation_codec ban_codec db_laws banned_key blacklist ip_hash
            t.on_ip)
          judge_ip-Keeps
      where
        judge_ip-Keeps :
            (banned : Bool)
            → Keeps Barred
                (judge_ip x r c violation_codec ban_codec api_key_hash ip_hash is_write t banned)
        judge_ip-Keeps true s h = h
        judge_ip-Keeps false s h =
            check_key-Keeps x r c violation_codec ban_codec db_laws banned_key blacklist
              api_key_hash ip_hash is_write t ne s h

    check-Keeps :
        (bypass_keys : List String) (q : LimitRequest) → Keeps Barred (check bypass_keys q)
    unfolding check_limit
    check-Keeps bypass_keys q s h =
        elim (Bool-cases (any (λ k. str_eq k q.api_key_hash) bypass_keys)) [
          | inl e ↦ rw (e, check_limit) h
          | inr e ↦
              rw (e, check_limit)
                elim (Bool-cases (str_eq q.api_key_hash banned_key)) [
                  | inl same ↦
                      rw ((eq_iff q.api_key_hash banned_key).0 same)
                        (check_ip-IsBarred (hash_ip x q.client_ip) q.is_write q.clock s h).1
                  | inr ne ↦
                      check_ip-Keeps q.api_key_hash (hash_ip x q.client_ip) q.is_write q.clock ne s
                        h
                ]
        ]

    after_checks-Keeps :
        (bypass_keys : List String) (requests : List LimitRequest) (s : Limits r.Db c.Cache)
        → Barred s
        → Barred (after_checks bypass_keys requests s)
    after_checks-Keeps bypass_keys [] s h = h
    after_checks-Keeps bypass_keys (q ∷ rest) s h =
        after_checks-Keeps bypass_keys rest (check bypass_keys q s).1
          (check-Keeps bypass_keys q s h)

    -- A key that was blacklisted, and that is not one of those that bypass the limits, stays so: after
    -- any checks of requests, of this key and of others, from any address, at any time, some of which
    -- may have failed in the database, the ban stands, and a route blocks a request of that key that
    -- reads or writes, unless this very check gives an error, for which the routes let the request
    -- through at their limit, or panics.
    pub blacklisted_stays :
        (bypass_keys : List String) (requests : List LimitRequest) (client_ip : String)
        (is_write : Bool) (t : LimitClock) (limit : ℕ) (now : ℤ) (s : Limits r.Db c.Cache)
        → any (λ k. str_eq k banned_key) bypass_keys ≡ false
        → HasBan r c violation_codec ban_codec banned_key blacklist s
        → HasBan r c violation_codec ban_codec banned_key blacklist
            (after_checks bypass_keys requests s)
          × IsBlockedUnlessFailed limit now
              (check_limit x r c violation_codec ban_codec bypass_keys banned_key client_ip is_write
                t
                (after_checks bypass_keys requests s)).0
    unfolding check_limit
    blacklisted_stays bypass_keys requests client_ip is_write t limit now s no_bypass h =
        let later = after_checks-Keeps bypass_keys requests s h in
        let refused =
          check_ip-IsBarred (hash_ip x client_ip) is_write t (after_checks bypass_keys requests s)
            later in
        (later, rw (no_bypass, check_limit) (IsRefused-IsBlockedUnlessFailed limit now _ refused.0))

-- ===== src/Api/RateLimiter/Others.antt =====
-- The checks of other keys, and the refusals (src/api/rate_limiter.rs), leave a ban where it is. The
-- database may fail at any point.
use goud_chain.Prelude.{
  ℕ, ◌==◌, ltb, String, str_eq, Bool, true, false, Bool-cases, Option, none, some, inl, inr, ◌≡◌,
}
use goud_chain.Crypto.Externals.{Externals}
use goud_chain.Storage.Codec.{Codec}
use goud_chain.Storage.RocksDb.{RocksDb, RocksDbLaws}
use goud_chain.Storage.Lru.{LruCache}
use goud_chain.Storage.Action.{Keeps, >>=-Keeps}
use goud_chain.Storage.Bans.{ViolationRecord, BanRecord}
use goud_chain.Storage.RateLimitStore.{
  RateLimitEntry, Limits, increment_request_count, get_violations, record_violation, apply_ban,
  get_ban_status,
}
use goud_chain.Storage.RateLimitStore.Permanent.{
  Stands, increment_request_count-Keeps, get_violations-Keeps, record_violation-Keeps, ban_ip-Keeps,
  apply_ban-Keeps, get_ban_status-Keeps,
}
use goud_chain.Api.RateLimiter.{
  LimitClock, blocks, limit_of, ban_for, ban_ip_if, apply_penalty, penalty, penalise, judge_count,
  check_count, refuse, judge_ban, check_key,
}

module _ (x : Externals) (r : RocksDb) (c : LruCache RateLimitEntry)
    (violation_codec : Codec ViolationRecord) (ban_codec : Codec BanRecord)
    (db_laws : RocksDbLaws r) (banned_key : String) (ban : BanRecord) where
  abbrev Blacklisted : Limits r.Db c.Cache → Type 0
  Blacklisted = Stands r c violation_codec ban_codec db_laws banned_key ban

  apply_penalty-Keeps :
      (api_key_hash ip_hash : String) (t : LimitClock) (count : ℕ)
      → str_eq api_key_hash banned_key ≡ false
      → Keeps Blacklisted
          (apply_penalty x r c violation_codec ban_codec api_key_hash ip_hash t count)
  unfolding apply_penalty
  apply_penalty-Keeps api_key_hash ip_hash t count ne =
      let (level, should_ban_ip) = ban_for count in
      >>=-Keeps Blacklisted (apply_ban r c violation_codec ban_codec api_key_hash level t.on_apply)
        _
        (apply_ban-Keeps r c violation_codec ban_codec db_laws banned_key ban api_key_hash level
          t.on_apply ne)
        (λ _.
          >>=-Keeps Blacklisted
            (ban_ip_if x r c violation_codec ban_codec should_ban_ip ip_hash t.on_ip_ban) _
            (ban_ip_if-Keeps should_ban_ip) (λ _ s h. h))
    where
      ban_ip_if-Keeps :
          (b : Bool)
          → Keeps Blacklisted (ban_ip_if x r c violation_codec ban_codec b ip_hash t.on_ip_ban)
      ban_ip_if-Keeps true s h =
          ban_ip-Keeps r c violation_codec ban_codec db_laws banned_key ban ip_hash t.on_ip_ban s h
      ban_ip_if-Keeps false s h = h

  penalty-Keeps :
      (api_key_hash ip_hash : String) (t : LimitClock) (limit count : ℕ)
      → str_eq api_key_hash banned_key ≡ false
      → Keeps Blacklisted
          (penalty x r c violation_codec ban_codec api_key_hash ip_hash t limit count)
  penalty-Keeps api_key_hash ip_hash t limit count ne s h = elim (Bool-cases (count == 1)) [
    | inl e ↦ rw e h
    | inr e ↦ rw e (apply_penalty-Keeps api_key_hash ip_hash t count ne s h)
  ]

  judge_count-Keeps :
      (api_key_hash ip_hash : String) (t : LimitClock) (limit count : ℕ)
      → str_eq api_key_hash banned_key ≡ false
      → Keeps Blacklisted
          (judge_count x r c violation_codec ban_codec api_key_hash ip_hash t limit count)
  unfolding penalise
  judge_count-Keeps api_key_hash ip_hash t limit count ne s h =
      elim (Bool-cases (ltb limit count)) [
        | inl e ↦ rw e (
            >>=-Keeps Blacklisted
              (record_violation r c violation_codec ban_codec api_key_hash t.on_violation) _
              (record_violation-Keeps r c violation_codec ban_codec db_laws banned_key ban
                api_key_hash t.on_violation)
              (λ v. penalty-Keeps api_key_hash ip_hash t limit v.count ne) s h)
        | inr e ↦ rw e h
      ]

  check_count-Keeps :
      (api_key_hash ip_hash : String) (is_write : Bool) (t : LimitClock)
      → str_eq api_key_hash banned_key ≡ false
      → Keeps Blacklisted
          (check_count x r c violation_codec ban_codec api_key_hash ip_hash is_write t)
  unfolding check_count
  check_count-Keeps api_key_hash ip_hash is_write t ne =
      >>=-Keeps Blacklisted
        (increment_request_count r c violation_codec ban_codec api_key_hash t.on_count) _
        (increment_request_count-Keeps r c violation_codec ban_codec db_laws banned_key ban
          api_key_hash t.on_count)
        (λ n. judge_count-Keeps api_key_hash ip_hash t (limit_of is_write) n ne)

  pub refuse-Keeps :
      (api_key_hash : String) (t : LimitClock) (found : BanRecord)
      → Keeps Blacklisted (refuse x r c violation_codec ban_codec api_key_hash t found)
  unfolding refuse
  refuse-Keeps api_key_hash t found =
      >>=-Keeps Blacklisted (get_violations r c violation_codec ban_codec api_key_hash) _
        (get_violations-Keeps r c violation_codec ban_codec db_laws banned_key ban api_key_hash)
        (λ _ s h. h)

  judge_ban-Keeps :
      (api_key_hash ip_hash : String) (is_write : Bool) (t : LimitClock) (status : Option BanRecord)
      → str_eq api_key_hash banned_key ≡ false
      → Keeps Blacklisted
          (judge_ban x r c violation_codec ban_codec api_key_hash ip_hash is_write t status)
  judge_ban-Keeps api_key_hash ip_hash is_write t none ne s h =
      check_count-Keeps api_key_hash ip_hash is_write t ne s h
  judge_ban-Keeps api_key_hash ip_hash is_write t (some found) ne s h =
      elim (Bool-cases (blocks is_write found.level)) [
        | inl e ↦ rw e (refuse-Keeps api_key_hash t found s h)
        | inr e ↦ rw e (check_count-Keeps api_key_hash ip_hash is_write t ne s h)
      ]

  pub check_key-Keeps :
      (api_key_hash ip_hash : String) (is_write : Bool) (t : LimitClock)
      → str_eq api_key_hash banned_key ≡ false
      → Keeps Blacklisted
          (check_key x r c violation_codec ban_codec api_key_hash ip_hash is_write t)
  unfolding check_key
  check_key-Keeps api_key_hash ip_hash is_write t ne =
      >>=-Keeps Blacklisted (get_ban_status r c violation_codec ban_codec api_key_hash t.on_ban) _
        (get_ban_status-Keeps r c violation_codec ban_codec db_laws banned_key ban api_key_hash
          t.on_ban ne)
        (λ status. judge_ban-Keeps api_key_hash ip_hash is_write t status ne)

-- ===== src/Api/RateLimiter/Penalties.antt =====
-- The penalties of src/api/rate_limiter.rs, over a database that does not fail.
use goud_chain.Prelude.{
  ℕ, zero, suc, ◌+◌, ◌<◌, ◌^◌, ◌==◌, pos, ◌+ℤ◌, String, str_eq, Bool, true, false, some, unwrap_or,
  inr, ◌≡◌, refl, sym, ◌∙◌, arith,
}
use goud_chain.Errors.{ok}
use goud_chain.Constants.{ban_ip_24hr_seconds}
use goud_chain.Crypto.Externals.{Externals, Bytes}
use goud_chain.Storage.Bytes.{i64_to_le_bytes}
use goud_chain.Storage.Codec.{Codec, CodecLaws}
use goud_chain.Storage.RocksDb.{RocksDb, RocksDbLaws, IsReliable}
use goud_chain.Storage.Lru.{LruCache}
use goud_chain.Storage.Bans.{
  BanLevel, write_block_5_min, write_block_1_hr, permanent_write_ban, complete_blacklist,
  ViolationRecord, BanRecord, duration_seconds, add_violation, new_ban,
}
use goud_chain.Storage.RateLimitStore.{RateLimitEntry, Limits, ban_key, ip_ban_key, violations_key}
use goud_chain.Storage.RateLimitStore.Records.{
  Wrote, HasViolations, HasBan, record_violation_lem, apply_ban_lem, ban_ip_lem,
}
use goud_chain.Storage.RateLimitStore.Keys.{
  violations_key-ne-ban_key, ban_key-ne-violations_key, ip_ban_key-ne-ban_key,
  ip_ban_key-ne-violations_key,
}
use goud_chain.Api.RateLimiter.{
  blocked, LimitClock, one_year, ban_for, apply_penalty, penalty, penalise,
}
use goud_chain.Api.RateLimiter.Sentence.{
  sentence, ban_for_blacklist, count-add_violation, IsPenalised,
}

module _ (r : RocksDb) (c : LruCache RateLimitEntry) (violation_codec : Codec ViolationRecord)
    (ban_codec : Codec BanRecord) where
  Wrote-HasViolations :
      (key api_key_hash : String) (value : Bytes) (v : ViolationRecord) (s s' : Limits r.Db c.Cache)
      → str_eq key (violations_key api_key_hash) ≡ false
      → Wrote r c violation_codec ban_codec key value s s'
      → HasViolations r c violation_codec ban_codec api_key_hash v s
      → HasViolations r c violation_codec ban_codec api_key_hash v s'
  Wrote-HasViolations key api_key_hash value v s s' ne w h = record {
    stored = h.stored;
    in_db = w.others (violations_key api_key_hash) h.stored ne h.in_db;
    decoded = h.decoded;
  }

  module _ (x : Externals) (db_laws : RocksDbLaws r) (reliable : IsReliable r)
      (violation_laws : CodecLaws violation_codec) (ban_laws : CodecLaws ban_codec) where
    apply_penalty_lem :
        (api_key_hash ip_hash : String) (t : LimitClock) (count : ℕ) (v : ViolationRecord)
        (s : Limits r.Db c.Cache) (level : BanLevel) (should_ban_ip : Bool)
        → ban_for count ≡ (level, should_ban_ip)
        → HasViolations r c violation_codec ban_codec api_key_hash v s
        → (s' : Limits r.Db c.Cache) × (apply_penalty x r c violation_codec ban_codec api_key_hash
              ip_hash t count s
            ≡ (ok (blocked level (unwrap_or one_year (duration_seconds level)) count), s'))
          × HasViolations r c violation_codec ban_codec api_key_hash v s'
          × HasBan r c violation_codec ban_codec api_key_hash (new_ban t.on_apply level) s'
          × (should_ban_ip ≡ true
              → r.get s'.db (ip_ban_key ip_hash)
                ≡ inr (some (i64_to_le_bytes (t.on_ip_ban +ℤ pos ban_ip_24hr_seconds))))
    unfolding apply_penalty
    apply_penalty_lem api_key_hash ip_hash t count v s level false e h =
        let (s', bytes, ran, wrote, banned) =
          apply_ban_lem r c violation_codec ban_codec db_laws reliable violation_laws ban_laws
            api_key_hash level t.on_apply s in
        (
          s',
          rw (e, ran) refl,
          Wrote-HasViolations (ban_key api_key_hash) api_key_hash bytes v s s'
              (ban_key-ne-violations_key api_key_hash api_key_hash) wrote h,
          banned,
          λ no. cc,
        )
    apply_penalty_lem api_key_hash ip_hash t count v s level true e h =
        let (s', bytes, ran, wrote, banned) =
          apply_ban_lem r c violation_codec ban_codec db_laws reliable violation_laws ban_laws
            api_key_hash level t.on_apply s in
        let (s2, ran2, wrote2) =
          ban_ip_lem r c violation_codec ban_codec db_laws reliable violation_laws ban_laws ip_hash
            t.on_ip_ban s' in
        (
          s2,
          rw (e, ran, ran2) refl,
          Wrote-HasViolations (ip_ban_key ip_hash) api_key_hash _ v s' s2
              (ip_ban_key-ne-violations_key ip_hash api_key_hash) wrote2
              (Wrote-HasViolations (ban_key api_key_hash) api_key_hash bytes v s s'
                (ban_key-ne-violations_key api_key_hash api_key_hash) wrote h),
          record {
            stored = banned.stored;
            in_db =
                wrote2.others (ban_key api_key_hash) (some banned.stored)
                  (ip_ban_key-ne-ban_key ip_hash api_key_hash) banned.in_db;
            decoded = banned.decoded;
          },
          λ _. wrote2.at_key,
        )

    penalty_blacklist :
        (api_key_hash ip_hash : String) (t : LimitClock) (limit count : ℕ) (v : ViolationRecord)
        (s : Limits r.Db c.Cache)
        → 4 < count
        → HasViolations r c violation_codec ban_codec api_key_hash v s
        → (s' : Limits r.Db c.Cache) × (penalty x r c violation_codec ban_codec api_key_hash ip_hash
              t limit count s
            ≡ (ok (blocked complete_blacklist 31536000 count), s'))
          × HasViolations r c violation_codec ban_codec api_key_hash v s'
          × HasBan r c violation_codec ban_codec api_key_hash
              (new_ban t.on_apply (ban_for count).0)
              s'
          × (r.get s'.db (ip_ban_key ip_hash)
              ≡ inr (some (i64_to_le_bytes (t.on_ip_ban +ℤ pos ban_ip_24hr_seconds))))
    unfolding duration_seconds
    penalty_blacklist api_key_hash ip_hash t limit count v s many h =
        let blacklisted = ban_for_blacklist count many in
        let later : (count == 1) ≡ false = ground arith in
        let (s', ran, has, ban, address) =
          apply_penalty_lem api_key_hash ip_hash t count v s complete_blacklist true blacklisted
            h in
        (s', rw later ran, has, rw blacklisted ban, address refl)

    penalty_lem :
        (api_key_hash ip_hash : String) (t : LimitClock) (limit n : ℕ) (v : ViolationRecord)
        (s s1 : Limits r.Db c.Cache)
        → r.get s1.db (ban_key api_key_hash) ≡ r.get s.db (ban_key api_key_hash)
        → HasViolations r c violation_codec ban_codec api_key_hash v s1
        → (s' : Limits r.Db c.Cache) × (penalty x r c violation_codec ban_codec api_key_hash ip_hash
              t limit
              (n + 1)
              s1
            ≡ (ok (sentence limit n), s'))
          × HasViolations r c violation_codec ban_codec api_key_hash v s'
          × IsPenalised r c violation_codec ban_codec api_key_hash ip_hash t n s s'
    unfolding ban_for duration_seconds
    penalty_lem api_key_hash ip_hash t limit zero v s s1 same h = (s1, refl, h, same)
    penalty_lem api_key_hash ip_hash t limit (suc zero) v s s1 same h =
        let (s', ran, has, ban, _) =
          apply_penalty_lem api_key_hash ip_hash t 2 v s1 write_block_5_min false refl h in
        (s', ran, has, (ban, tt))
    penalty_lem api_key_hash ip_hash t limit (suc (suc zero)) v s s1 same h =
        let (s', ran, has, ban, _) =
          apply_penalty_lem api_key_hash ip_hash t 3 v s1 write_block_1_hr false refl h in
        (s', ran, has, (ban, tt))
    penalty_lem api_key_hash ip_hash t limit (suc (suc (suc zero))) v s s1 same h =
        let (s', ran, has, ban, _) =
          apply_penalty_lem api_key_hash ip_hash t 4 v s1 permanent_write_ban false refl h in
        (s', ran, has, (ban, tt))
    penalty_lem api_key_hash ip_hash t limit (suc (suc (suc (suc n)))) v s s1 same h =
        let (s', ran, has, ban, address) =
          penalty_blacklist api_key_hash ip_hash t limit (suc (suc (suc (suc n))) + 1) v s1
            (omega arith) h in
        (s', ran, has, (ban, address))

    -- A request above the limit of a key with fewer than 2^32 - 1 violations: the answer is the
    -- sentence for their number, the violation is added to them, the ban of the level is stored (none
    -- for a first violation), and from the fifth violation on so is a ban of the address for a day.
    -- The database does not fail, and records are encoded and read back.
    pub penalise_lem :
        (api_key_hash ip_hash : String) (t : LimitClock) (limit : ℕ) (v : ViolationRecord)
        (s : Limits r.Db c.Cache)
        → v.count + 1 < 2 ^ 32
        → HasViolations r c violation_codec ban_codec api_key_hash v s
        → (s' : Limits r.Db c.Cache) × (penalise x r c violation_codec ban_codec api_key_hash
              ip_hash t limit s
            ≡ (ok (sentence limit v.count), s'))
          × HasViolations r c violation_codec ban_codec api_key_hash
              (add_violation t.on_violation v)
              s'
          × IsPenalised r c violation_codec ban_codec api_key_hash ip_hash t v.count s s'
    unfolding penalise
    penalise_lem api_key_hash ip_hash t limit v s small h =
        let (s1, bytes, ran, wrote, has) =
          record_violation_lem r c violation_codec ban_codec db_laws reliable violation_laws
            ban_laws api_key_hash t.on_violation v s h in
        let (old, before) = reliable.get-total s.db (ban_key api_key_hash) in
        let after =
          wrote.others (ban_key api_key_hash) old
            (violations_key-ne-ban_key api_key_hash api_key_hash) before in
        let (s', answered, has', bans) =
          penalty_lem api_key_hash ip_hash t limit v.count (add_violation t.on_violation v) s s1
            (after ∙ sym before) has in
        (s', rw (ran, count-add_violation t.on_violation v small) answered, has', bans)

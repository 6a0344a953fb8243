-- ===== src/Storage/RateLimitStore.antt =====
-- src/storage/rate_limit_store.rs: the counts of requests, the violations and the bans, in RocksDB and
-- in an LRU cache. The clock is an argument of each method.
pub mod Records
pub mod Keys
pub mod Permanent
pub mod Counts
pub mod Current
pub mod Mixed
use goud_chain.Prelude.{
  ℕ, ◌-◌, ℤ, pos, ◌+ℤ◌, ◌-ℤ◌, rem, leb_ℤ, String, ◌+++◌, show_ℤ, List, [], ◌∷◌, Option, none, some,
  inl, inr, Bool, true, false, if◌then◌else◌,
}
use goud_chain.Errors.{
  GoudChainError, Result, ok, err, panic, Fallible, rocks_db_error, serialization_error,
  deserialization_error, map_err, or_panic,
}
use goud_chain.Constants.{rate_limit_window_seconds, ban_ip_24hr_seconds}
use goud_chain.Crypto.Externals.{Bytes}
use goud_chain.Storage.Bytes.{to_le_bytes, from_le_bytes, i64_to_le_bytes, i64_from_le_bytes}
use goud_chain.Storage.Codec.{Codec}
use goud_chain.Storage.RocksDb.{RocksDb, WriteOp, put, delete}
use goud_chain.Storage.Lru.{LruCache}
use goud_chain.Storage.Action.{Action, pure, fail, lift, gets, modify, ◌>>=◌, ◌>>◌}
use goud_chain.Storage.Bans.{
  BanLevel, ViolationRecord, BanRecord, new_violations, add_violation, next_u32, new_ban,
  is_expired,
}

-- `RateLimitCacheEntry`
pub record RateLimitEntry : Type 0 where
  pub count : ℕ
  pub window_start : ℤ

pub record Limits (Db Cache : Type 0) : Type 0 where
  pub db : Db
  pub cache : Cache

unfoldable pub current_window : ℤ → ℤ
current_window now = now -ℤ rem now rate_limit_window_seconds

-- The keys of the cache and of the database.
abbrev pub window_key : String → ℤ → String
window_key api_key_hash start = api_key_hash +++ ":" +++ show_ℤ start

abbrev pub count_key : String → ℤ → String
count_key api_key_hash start = "ratelimit:" +++ window_key api_key_hash start

abbrev pub violations_key : String → String
violations_key api_key_hash = "violations:" +++ api_key_hash

abbrev pub ban_key : String → String
ban_key api_key_hash = "bans:" +++ api_key_hash

abbrev pub ip_ban_key : String → String
ip_ban_key ip_hash = "ip_bans:" +++ ip_hash

module _ (r : RocksDb) (c : LruCache RateLimitEntry) (violation_codec : Codec ViolationRecord)
    (ban_codec : Codec BanRecord) where
  abbrev pub RateLimitStore : Type 0
  RateLimitStore = Limits r.Db c.Cache

  -- A read, and a write of one entry, that fail with a message of their own.
  unfoldable pub read_key :
      (String → GoudChainError) → String → Action RateLimitStore (Option Bytes)
  read_key failed key s = (map_err failed (r.get s.db key), s)

  unfoldable pub write_one : (String → GoudChainError) → WriteOp → Action RateLimitStore (Unit {0})
  write_one failed op s = elim (r.write s.db (op ∷ [])) [
    | inl e ↦ (err (failed e), s)
    | inr db' ↦ (ok tt, record s { db = db' })
  ]

  -- `rocksdb(message: e)`
  abbrev pub because : String → String → GoudChainError
  because message e = rocks_db_error (message +++ e)

  -- Four bytes of a `u32`; the program panics at another length.
  abbrev pub decode_count : Option Bytes → Result ℕ
  decode_count none = ok 0
  decode_count (some bytes) = or_panic (from_le_bytes 4 bytes)

  -- The rest of `increment_request_count` where the cache has no entry.
  unfoldable pub count_from_db : String → ℤ → Action RateLimitStore ℕ
  unfolding read_key write_one
  count_from_db api_key_hash start = do
    stored ← read_key (because "Failed to read rate limit: ") (count_key api_key_hash start)
    current_count ← lift (decode_count stored)
    write_one (because "Failed to update rate limit: ")
        (put (count_key api_key_hash start) (to_le_bytes 4 (next_u32 current_count)))
    modify (λ s. record s {
      cache =
          c.put s.cache (window_key api_key_hash start)
            (record { count = next_u32 current_count; window_start = start });
    })
    pure (next_u32 current_count)

  -- A hit counts in the cache alone.
  unfoldable pub increment_request_count : String → ℤ → Action RateLimitStore ℕ
  increment_request_count api_key_hash now s =
      let start = current_window now in
      let cache_key = window_key api_key_hash start in
      elim (c.peek s.cache cache_key) [
        | some entry ↦
            let count' = next_u32 entry.count in
            (
              ok count',
              record s { cache = c.update s.cache cache_key (record entry { count = count' }) },
            )
        | none ↦ count_from_db api_key_hash start s
      ]

  -- A read that changes nothing but the order of use in the cache.
  unfoldable pub get_current_count : String → ℤ → Action RateLimitStore ℕ
  get_current_count api_key_hash now s =
      let start = current_window now in
      let cache_key = window_key api_key_hash start in
      elim (c.peek s.cache cache_key) [
        | some entry ↦ (ok entry.count, record s { cache = c.touch s.cache cache_key })
        | none ↦
            (read_key (because "Failed to read rate limit: ") (count_key api_key_hash start)
                >>= λ stored. lift (decode_count stored))
              s
      ]

  abbrev pub decode_violations : Option Bytes → Result ViolationRecord
  decode_violations none = ok new_violations
  decode_violations (some bytes) = map_err deserialization_error (violation_codec.deserialize bytes)

  unfoldable pub get_violations : String → Action RateLimitStore ViolationRecord
  get_violations api_key_hash = do
    stored ← read_key (because "Failed to read violations: ") (violations_key api_key_hash)
    lift (decode_violations stored)

  unfoldable pub record_violation : String → ℤ → Action RateLimitStore ViolationRecord
  record_violation api_key_hash now = do
    violations ← get_violations api_key_hash
    bytes ←
        lift
          (map_err serialization_error (violation_codec.serialize (add_violation now violations)))
    write_one (because "Failed to save violations: ") (put (violations_key api_key_hash) bytes)
    pure (add_violation now violations)

  unfoldable pub apply_ban : String → BanLevel → ℤ → Action RateLimitStore (Unit {0})
  apply_ban api_key_hash level now = do
    bytes ← lift (map_err serialization_error (ban_codec.serialize (new_ban now level)))
    write_one (because "Failed to save ban: ") (put (ban_key api_key_hash) bytes)

  -- What `get_ban_status` does with a stored record: an expired one is deleted.
  unfoldable pub drop_expired_ban :
      String → ℤ → BanRecord → Action RateLimitStore (Option BanRecord)
  drop_expired_ban api_key_hash now ban =
      if is_expired now ban
      then write_one rocks_db_error (delete (ban_key api_key_hash)) >> pure none
      else pure (some ban)

  abbrev pub decode_ban : String → ℤ → Option Bytes → Action RateLimitStore (Option BanRecord)
  decode_ban api_key_hash now none = pure none
  decode_ban api_key_hash now (some bytes) = do
    ban ← lift (map_err deserialization_error (ban_codec.deserialize bytes))
    drop_expired_ban api_key_hash now ban

  unfoldable pub get_ban_status : String → ℤ → Action RateLimitStore (Option BanRecord)
  get_ban_status api_key_hash now = do
    stored ← read_key (because "Failed to read ban status: ") (ban_key api_key_hash)
    decode_ban api_key_hash now stored

  unfoldable pub ban_ip : String → ℤ → Action RateLimitStore (Unit {0})
  ban_ip ip_hash now =
      write_one (because "Failed to ban IP: ")
        (put (ip_ban_key ip_hash) (i64_to_le_bytes (now +ℤ pos ban_ip_24hr_seconds)))

  -- Eight bytes of the expiry; the program panics at another length. An expired ban is deleted.
  unfoldable pub drop_expired_ip : String → ℤ → ℤ → Action RateLimitStore Bool
  drop_expired_ip ip_hash now expires_at =
      if leb_ℤ expires_at now
      then write_one rocks_db_error (delete (ip_ban_key ip_hash)) >> pure false
      else pure true

  abbrev pub decode_ip_ban : String → ℤ → Option Bytes → Action RateLimitStore Bool
  decode_ip_ban ip_hash now none = pure false
  decode_ip_ban ip_hash now (some bytes) = do
    expires_at ← lift (or_panic (i64_from_le_bytes bytes))
    drop_expired_ip ip_hash now expires_at

  unfoldable pub is_ip_banned : String → ℤ → Action RateLimitStore Bool
  is_ip_banned ip_hash now = do
    stored ← read_key (because "Failed to check IP ban: ") (ip_ban_key ip_hash)
    decode_ip_ban ip_hash now stored

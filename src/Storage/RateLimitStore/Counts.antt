-- ===== src/Storage/RateLimitStore/Counts.antt =====
-- The counts of requests in one window (src/storage/rate_limit_store.rs), over a database that does not
-- fail.
use goud_chain.Prelude.{ℕ, ◌+◌, ◌^◌, ◌<◌, ℤ, String, none, some, inr, ◌≡◌, refl, ap, arith}
use goud_chain.Errors.{ok}
use goud_chain.Storage.Bytes.{to_le_bytes}
use goud_chain.Storage.Codec.{Codec, CodecLaws}
use goud_chain.Storage.RocksDb.{RocksDb, RocksDbLaws, IsReliable}
use goud_chain.Storage.Lru.{LruCache, LruLaws}
use goud_chain.Storage.Bans.{ViolationRecord, BanRecord, next_u32}
use goud_chain.Storage.RateLimitStore.{
  RateLimitEntry, Limits, current_window, window_key, count_key, read_key, because, count_from_db,
  increment_request_count,
}
use goud_chain.Storage.RateLimitStore.Records.{write_one-put}

next_u32_small : (n : ℕ) → n + 1 < 2 ^ 32 → next_u32 n ≡ n + 1
next_u32_small n h = omega arith

module _ (r : RocksDb) (c : LruCache RateLimitEntry) (violation_codec : Codec ViolationRecord)
    (ban_codec : Codec BanRecord) where
  -- The count of a window that the cache holds.
  pub record HasCount (api_key_hash : String) (start : ℤ) (n : ℕ) (s : Limits r.Db c.Cache)
      : Type 0 where
    pub entry : RateLimitEntry
    pub in_cache : c.peek s.cache (window_key api_key_hash start) ≡ some entry
    pub counted : entry.count ≡ n

  module _ (lru_laws : LruLaws c) where
    pub increment_hit :
        (api_key_hash : String) (start t : ℤ) (n : ℕ) (s : Limits r.Db c.Cache)
        → current_window t ≡ start
        → n + 1 < 2 ^ 32
        → HasCount api_key_hash start n s
        → (s' : Limits r.Db c.Cache) × (increment_request_count r c violation_codec ban_codec
              api_key_hash t s
            ≡ (ok (n + 1), s'))
          × HasCount api_key_hash start (n + 1) s'
    unfolding increment_request_count
    increment_hit api_key_hash start t n s w small h =
        let count' = next_u32_small n small in
        let grown : next_u32 (h.entry).count ≡ n + 1 = rw h.counted count' in
        let s' : Limits r.Db c.Cache = record s {
          cache =
              c.update s.cache (window_key api_key_hash start)
                (record (h.entry) { count = next_u32 (h.entry).count });
        } in
        (
          s',
          rw (w, h.in_cache, increment_request_count, w) (ap (λ m. (ok m, s')) grown),
          record {
            entry = record (h.entry) { count = next_u32 (h.entry).count };
            in_cache = lru_laws.peek-update_self s.cache (window_key api_key_hash start) _;
            counted = grown;
          },
        )

    module _ (db_laws : RocksDbLaws r) (reliable : IsReliable r)
        (violation_laws : CodecLaws violation_codec) (ban_laws : CodecLaws ban_codec) where
      count_first :
          (api_key_hash : String) (start : ℤ) (s : Limits r.Db c.Cache)
          → r.get s.db (count_key api_key_hash start) ≡ inr none
          → (s' : Limits r.Db c.Cache) × (count_from_db r c violation_codec ban_codec api_key_hash
                start s
              ≡ (ok 1, s'))
            × HasCount api_key_hash start 1 s'
      unfolding count_from_db read_key
      count_first api_key_hash start s unstored =
          let (s1, ran, _) =
            write_one-put r c violation_codec ban_codec db_laws reliable violation_laws ban_laws
              (because r c violation_codec ban_codec "Failed to update rate limit: ")
              (count_key api_key_hash start) (to_le_bytes 4 (next_u32 0)) s in
          let entry : RateLimitEntry = record { count = 1; window_start = start } in
          (
            record s1 { cache = c.put s1.cache (window_key api_key_hash start) entry },
            rw (unstored, ran) refl,
            record {
              entry = entry;
              in_cache = lru_laws.peek-put_self s1.cache (window_key api_key_hash start) entry;
              counted = refl;
            },
          )

      pub increment_first :
          (api_key_hash : String) (start t : ℤ) (s : Limits r.Db c.Cache)
          → current_window t ≡ start
          → c.peek s.cache (window_key api_key_hash start) ≡ none
          → r.get s.db (count_key api_key_hash start) ≡ inr none
          → (s' : Limits r.Db c.Cache) × (increment_request_count r c violation_codec ban_codec
                api_key_hash t s
              ≡ (ok 1, s'))
            × HasCount api_key_hash start 1 s'
      unfolding increment_request_count
      increment_first api_key_hash start t s w uncached unstored =
          let (s', ran, has) = count_first api_key_hash start s unstored in
          (s', rw (w, uncached, increment_request_count, w, ran) refl, has)

-- ===== src/Crypto/KeyCache.antt =====
-- src/crypto/key_cache.rs: the cache of derived keys. An `Instant` is a number of nanoseconds, and is an
-- argument.
pub mod Coherent
pub mod Runs
use goud_chain.Prelude.{
  ℕ, suc, ◌+◌, ◌-◌, ◌*◌, ◌%◌, ◌^◌, ltb, String, Option, none, some, List, [], ◌++◌, Bool,
  if◌then◌else◌,
}
use goud_chain.Crypto.Externals.{Externals, Bytes}
use goud_chain.Crypto.Hkdf.{derive_encryption_key, derive_mac_key}
use goud_chain.Storage.Lru.{LruCache}

abbrev pub cache_ttl_seconds : ℕ
cache_ttl_seconds = 300

pub record CachedKeys : Type 0 where
  pub encryption_key : Bytes
  pub mac_key : Bytes

-- `CachedKeysWithTTL`
pub record CachedKeysWithTtl : Type 0 where
  pub keys : CachedKeys
  pub inserted_at : ℕ

pub record CacheStats : Type 0 where
  pub size : ℕ
  pub hits : ℕ
  pub misses : ℕ
  pub evictions : ℕ

abbrev pub no_stats : CacheStats
no_stats = record { size = 0; hits = 0; misses = 0; evictions = 0 }

-- `+= 1` on a `u64`
abbrev pub next_u64 : ℕ → ℕ
next_u64 n = (n + 1) % 2 ^ 64

-- A difference of instants stops at 0.
abbrev pub is_fresh : ℕ → ℕ → Bool
is_fresh now inserted_at = ltb (now - inserted_at) (cache_ttl_seconds * 10 ^ 9)

pub record KeyCache (Cache : Type 0) : Type 0 where
  pub cache : Cache
  pub stats : CacheStats

unfoldable pub make_cache_key : Externals → Bytes → Bytes → String
make_cache_key x api_key salt = x.hex_encode (x.sha256 (api_key ++ salt))

abbrev pub derive_keys : Externals → Bytes → Bytes → CachedKeys
derive_keys x api_key salt = record {
  encryption_key = derive_encryption_key x api_key salt;
  mac_key = derive_mac_key x api_key salt;
}

module _ (x : Externals) (c : LruCache CachedKeysWithTtl) where
  -- The first half of both methods: an entry that is too old is removed.
  unfoldable pub look_up : String → ℕ → KeyCache c.Cache → Option CachedKeys × KeyCache c.Cache
  look_up cache_key now s = elim (c.peek s.cache cache_key) [
    | none ↦ (none, record s { cache = c.touch s.cache cache_key })
    | some entry ↦
        let hit = record s {
          cache = c.touch s.cache cache_key;
          stats = record (s.stats) { hits = next_u64 s.stats.hits };
        } in
        let expired = record s {
          cache = c.pop (c.touch s.cache cache_key) cache_key;
          stats = record (s.stats) { evictions = next_u64 s.stats.evictions };
        } in
        if is_fresh now entry.inserted_at then (some entry.keys, hit) else (none, expired)
  ]

  -- The second half, at a miss.
  unfoldable pub derive_and_push :
      Bytes → Bytes → ℕ → KeyCache c.Cache → CachedKeys × KeyCache c.Cache
  derive_and_push api_key salt now s =
      let cache_key = make_cache_key x api_key salt in
      let keys = derive_keys x api_key salt in
      let evicted = c.gives_back s.cache cache_key in
      let counted = record (s.stats) { misses = next_u64 s.stats.misses } in
      (
        keys,
        record s {
          cache = c.put s.cache cache_key (record { keys = keys; inserted_at = now });
          stats =
              if evicted
              then record counted { evictions = next_u64 counted.evictions }
              else counted;
        },
      )

  abbrev pub or_derive :
      Bytes → Bytes → ℕ → Option CachedKeys × KeyCache c.Cache → CachedKeys × KeyCache c.Cache
  or_derive api_key salt now (some keys, s) = (keys, s)
  or_derive api_key salt now (none, s) = derive_and_push api_key salt now s

  unfoldable pub get_keys : Bytes → Bytes → ℕ → KeyCache c.Cache → CachedKeys × KeyCache c.Cache
  get_keys api_key salt now s =
      or_derive api_key salt now (look_up (make_cache_key x api_key salt) now s)

  unfoldable pub get_encryption_key :
      Bytes → Bytes → ℕ → KeyCache c.Cache → Bytes × KeyCache c.Cache
  get_encryption_key api_key salt now s =
      let (keys, s') = get_keys api_key salt now s in (keys.encryption_key, s')

  unfoldable pub get_mac_key : Bytes → Bytes → ℕ → KeyCache c.Cache → Bytes × KeyCache c.Cache
  get_mac_key api_key salt now s =
      let (keys, s') = get_keys api_key salt now s in (keys.mac_key, s')

  unfoldable pub clear : KeyCache c.Cache → KeyCache c.Cache
  clear s = record { cache = c.clear s.cache; stats = no_stats }

-- ===== src/Crypto/KeyCache/Runs.antt =====
-- Requests for keys one after the other (src/crypto/key_cache.rs).
use goud_chain.Prelude.{
  ℕ, ◌+◌, ◌^◌, ◌<◌, List, [], ◌∷◌, ◌++◌, length, Option-cases, Bool, Bool-cases, All, if◌then◌else◌,
  inl, inr, ◌≡◌, refl, ap, ◌∙◌, arith,
}
use goud_chain.Crypto.Externals.{Externals, Bytes}
use goud_chain.Crypto.Hkdf.{derive_encryption_key, derive_mac_key}
use goud_chain.Storage.Lru.{LruCache, LruLaws}
use goud_chain.Crypto.KeyCache.{
  CachedKeysWithTtl, KeyCache, is_fresh, make_cache_key, look_up, derive_and_push, get_keys,
  get_encryption_key, get_mac_key,
}
use goud_chain.Crypto.KeyCache.Coherent.{Occurs, IsCollisionFree, IsCoherent, get_keys-IsCoherent}

pub record KeyRequest : Type 0 where
  pub for_encryption : Bool
  pub api_key : Bytes
  pub salt : Bytes
  pub now : ℕ

-- The key that the derivation gives.
abbrev pub derived : Externals → KeyRequest → Bytes
derived x q =
    if q.for_encryption
    then derive_encryption_key x q.api_key q.salt
    else derive_mac_key x q.api_key q.salt

module _ (x : Externals) (c : LruCache CachedKeysWithTtl) where
  abbrev pub answer : KeyRequest → KeyCache c.Cache → Bytes × KeyCache c.Cache
  answer q s =
      if q.for_encryption
      then get_encryption_key x c q.api_key q.salt q.now s
      else get_mac_key x c q.api_key q.salt q.now s

  abbrev pub after_keys : List KeyRequest → KeyCache c.Cache → KeyCache c.Cache
  after_keys [] s = s
  after_keys (q ∷ qs) s = after_keys qs (answer q s).1

  -- The requests that the statistics count.
  abbrev pub counted : KeyCache c.Cache → ℕ
  counted s = s.stats.hits + s.stats.misses

  answer-state :
      (q : KeyRequest) (s : KeyCache c.Cache)
      → (answer q s).1 ≡ (get_keys x c q.api_key q.salt q.now s).1
  unfolding get_encryption_key get_mac_key
  answer-state q s = elim (Bool-cases q.for_encryption) [ inl e ↦ rw e refl | inr e ↦ rw e refl ]

  get_keys-counted :
      (api_key salt : Bytes) (now : ℕ) (s : KeyCache c.Cache)
      → counted s + 1 < 2 ^ 64
      → counted (get_keys x c api_key salt now s).1 ≡ counted s + 1
  unfolding get_keys look_up derive_and_push
  get_keys-counted api_key salt now s small =
      let k = make_cache_key x api_key salt in
      elim (Option-cases (c.peek s.cache k)) [
        | inl e ↦
            rw (e, get_keys, look_up)
              elim (Bool-cases (c.gives_back (c.touch s.cache k) k)) [
                | inl b ↦ rw (b, derive_and_push) (omega arith)
                | inr b ↦ rw (b, derive_and_push) (omega arith)
              ]
        | inr (entry, e) ↦ elim (Bool-cases (is_fresh now entry.inserted_at)) [
          | inl fresh ↦ rw (e, fresh, get_keys, look_up) (omega arith)
          | inr old ↦
              rw (e, old, get_keys, look_up)
                elim (Bool-cases (c.gives_back (c.pop (c.touch s.cache k) k) k)) [
                  | inl b ↦ rw (b, derive_and_push) (omega arith)
                  | inr b ↦ rw (b, derive_and_push) (omega arith)
                ]
        ]
      ]

  -- Every request counts once, as a hit or as a miss: after any requests the hits and the misses
  -- together are as many more as the requests, while they are below 2^64.
  pub counted-after_keys :
      (qs : List KeyRequest) (s : KeyCache c.Cache)
      → counted s + length qs < 2 ^ 64
      → counted (after_keys qs s) ≡ counted s + length qs
  counted-after_keys [] s small = omega arith
  counted-after_keys (q ∷ qs) s small =
      let one : counted (answer q s).1 ≡ counted s + 1 =
        ap counted (answer-state q s) ∙ get_keys-counted q.api_key q.salt q.now s (omega arith) in
      let rest = counted-after_keys qs (answer q s).1 (omega arith) in omega arith

  module _ (laws : LruLaws c) (inputs : List Bytes)
      (collision_free : IsCollisionFree x inputs) where
    -- A request for an API key of 32 bytes that is with its salt one of the inputs.
    abbrev pub IsAsked : KeyRequest → Type 0
    IsAsked q = (length q.api_key ≡ 32) × Occurs (q.api_key ++ q.salt) inputs

    answer-IsCoherent :
        (q : KeyRequest) (s : KeyCache c.Cache)
        → IsAsked q
        → IsCoherent x c inputs s.cache
        → ((answer q s).0 ≡ derived x q) × IsCoherent x c inputs (answer q s).1.cache
    unfolding get_encryption_key get_mac_key
    answer-IsCoherent q s (n, o) h =
        let (keys, after) =
          get_keys-IsCoherent x c inputs laws collision_free q.api_key q.salt q.now s n o h in
        elim (Bool-cases q.for_encryption) [
          | inl e ↦ rw e (ap (λ k. k.encryption_key) keys, after)
          | inr e ↦ rw e (ap (λ k. k.mac_key) keys, after)
        ]

    after_keys-IsCoherent :
        (qs : List KeyRequest) (s : KeyCache c.Cache)
        → All IsAsked qs
        → IsCoherent x c inputs s.cache
        → IsCoherent x c inputs (after_keys qs s).cache
    after_keys-IsCoherent [] s ns h = h
    after_keys-IsCoherent (q ∷ qs) s (n, ns) h =
        after_keys-IsCoherent qs (answer q s).1 ns (answer-IsCoherent q s n h).1

    -- The cache cannot be told from the derivation: after any requests for keys of API keys of 32
    -- bytes with salts at any times, whatever the cache dropped in between, the answer to
    -- another one is what `derive_encryption_key` or `derive_mac_key` gives. This asks that the API keys
    -- with their salts are among some inputs of which no two have the same SHA-256 in hexadecimal, and
    -- that the cache at first holds only derived keys of such inputs, as an empty one does.
    pub answer-after_keys :
        (qs : List KeyRequest) (q : KeyRequest) (s : KeyCache c.Cache)
        → All IsAsked qs
        → IsAsked q
        → IsCoherent x c inputs s.cache
        → (answer q (after_keys qs s)).0 ≡ derived x q
    answer-after_keys qs q s ns n h =
        (answer-IsCoherent q (after_keys qs s) n (after_keys-IsCoherent qs s ns h)).0

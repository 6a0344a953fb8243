-- ===== src/Storage/RateLimitStore/Mixed.antt =====
-- The counts of one key among the requests of all keys in one window
-- (`increment_request_count` of src/storage/rate_limit_store.rs).
use goud_chain.Prelude.{
  ℕ, zero, suc, ◌+◌, ◌^◌, ◌<◌, ℤ, String, str_eq, eq_iff, List, [], ◌∷◌, All, Option, none, some,
  Option-cases, inl, inr, ◌⊎◌, Bool-cases, false, if◌then◌else◌, ◌≡◌, ◌≢◌, refl, sym, ap, ◌∙◌,
  arith,
}
use mathlib.Core.Path.{subst}
use goud_chain.Errors.{GoudChainError, Result, ok, Fallible-cases}
use goud_chain.Crypto.Externals.{Bytes}
use goud_chain.Storage.Bytes.{to_le_bytes}
use goud_chain.Storage.Codec.{Codec, CodecLaws}
use goud_chain.Storage.RocksDb.{RocksDb, RocksDbLaws, IsReliable, put}
use goud_chain.Storage.Lru.{LruCache, LruLaws}
use goud_chain.Storage.Action.{Keeps, lift, >>=-Keeps}
use goud_chain.Storage.Bans.{ViolationRecord, BanRecord, next_u32}
use goud_chain.Storage.RateLimitStore.{
  RateLimitEntry, Limits, current_window, window_key, count_key, read_key, write_one, because,
  decode_count, count_from_db, increment_request_count,
}
use goud_chain.Storage.RateLimitStore.Keys.{window_key-ne, count_key-ne}
use goud_chain.Storage.RateLimitStore.Counts.{HasCount, increment_hit, increment_first}

some_none : {V : Type 0} {v : V} → Path (Option V) (some v) none → ⊥
some_none h = cc

more_lt : (n m : ℕ) → n + (m + 1) < 2 ^ 32 → n + 1 < 2 ^ 32
more_lt n m h = omega arith

moved_lt : (n m : ℕ) → n + (m + 1) < 2 ^ 32 → suc n + m < 2 ^ 32
moved_lt n m h = omega arith

sum : (n m : ℕ) → suc n + m ≡ n + (m + 1)
sum n m = omega arith

-- The requests of one key.
abbrev pub requests_of : String → List (String × ℤ) → ℕ
requests_of k [] = 0
requests_of k ((j, t) ∷ rs) = if str_eq j k then requests_of k rs + 1 else requests_of k rs

module _ (r : RocksDb) (c : LruCache RateLimitEntry) (violation_codec : Codec ViolationRecord)
    (ban_codec : Codec BanRecord) where
  -- Requests, each of a key at a time, one after the other.
  abbrev pub after_requests : List (String × ℤ) → Limits r.Db c.Cache → Limits r.Db c.Cache
  after_requests [] s = s
  after_requests ((j, t) ∷ rs) s =
      after_requests rs (increment_request_count r c violation_codec ban_codec j t s).1

  -- None of these requests makes the cache drop an entry that it had.
  abbrev pub StaysCached : String → List (String × ℤ) → Limits r.Db c.Cache → Type 0
  StaysCached cache_key [] s = Unit
  StaysCached cache_key ((j, t) ∷ rs) s =
      let s' = (increment_request_count r c violation_codec ban_codec j t s).1 in
      (c.peek s.cache cache_key ≢ none → c.peek s'.cache cache_key ≢ none)
      × StaysCached cache_key rs s'

  module _ (lru_laws : LruLaws c) (db_laws : RocksDbLaws r) (k : String) (start : ℤ) where
    -- The cache has this entry or none, and the database this value.
    record IsAs (entry : Option RateLimitEntry) (value : Option Bytes) (s : Limits r.Db c.Cache)
        : Type 0 where
      cached :
          (c.peek s.cache (window_key k start) ≡ entry)
          ⊎ (c.peek s.cache (window_key k start) ≡ none)
      stored : r.get s.db (count_key k start) ≡ inr value

    module _ (entry : Option RateLimitEntry) (value : Option Bytes) where
      put-Keeps :
          (j : String) (held : RateLimitEntry) (s : Limits r.Db c.Cache)
          → str_eq j k ≡ false
          → IsAs entry value s
          → IsAs entry value (record s { cache = c.put s.cache (window_key j start) held })
      put-Keeps j held s ne h = record {
        stored = h.stored;
        cached =
            elim (lru_laws.peek-put_ne s.cache (window_key j start) (window_key k start) held
              (window_key-ne j k start ne)) [
                | inl same ↦ elim h.cached [ inl e ↦ inl (same ∙ e) | inr e ↦ inr (same ∙ e) ]
                | inr dropped ↦ inr dropped
              ];
      }

      write_one-Keeps :
          (failed : String → GoudChainError) (j : String) (bytes : Bytes)
          → str_eq j k ≡ false
          → Keeps
              (IsAs entry value)
              (write_one r c violation_codec ban_codec failed (put (count_key j start) bytes))
      unfolding write_one
      write_one-Keeps failed j bytes ne s h =
          let ops = put (count_key j start) bytes ∷ [] in
          elim (Fallible-cases (r.write s.db ops)) [
            | inl (why, w) ↦ rw (w, write_one) h
            | inr (d, w) ↦
                rw (w, write_one)
                  (record {
                    cached = h.cached;
                    stored =
                        rw (count_key-ne j k start ne) at
                          (db_laws.get-write s.db d ops (count_key k start) value w h.stored);
                  })
          ]

      count_from_db-Keeps :
          (j : String)
          → str_eq j k ≡ false
          → Keeps (IsAs entry value) (count_from_db r c violation_codec ban_codec j start)
      unfolding count_from_db read_key
      count_from_db-Keeps j ne =
          let message = because r c violation_codec ban_codec in
          >>=-Keeps (IsAs entry value)
            (read_key r c violation_codec ban_codec (message "Failed to read rate limit: ")
              (count_key j start))
            _ (λ s h. h)
            (λ found.
              >>=-Keeps (IsAs entry value) (lift (decode_count r c violation_codec ban_codec found))
                _ (λ s h. h)
                (λ n.
                  >>=-Keeps (IsAs entry value)
                    (write_one r c violation_codec ban_codec
                      (message "Failed to update rate limit: ")
                      (put (count_key j start) (to_le_bytes 4 (next_u32 n))))
                    _
                    (write_one-Keeps (message "Failed to update rate limit: ") j
                      (to_le_bytes 4 (next_u32 n)) ne)
                    (λ _ s h. put-Keeps j _ s ne h)))

      increment_request_count-Keeps :
          (j : String) (t : ℤ)
          → current_window t ≡ start
          → str_eq j k ≡ false
          → Keeps (IsAs entry value) (increment_request_count r c violation_codec ban_codec j t)
      unfolding increment_request_count
      increment_request_count-Keeps j t w ne s h =
          elim (Option-cases (c.peek s.cache (window_key j start))) [
            | inl e ↦ rw (w, e, increment_request_count, w) (count_from_db-Keeps j ne s h)
            | inr (held, e) ↦
                let same =
                  lru_laws.peek-update_ne s.cache (window_key j start) (window_key k start) _
                    (window_key-ne j k start ne) in
                rw (w, e, increment_request_count, w)
                  (record {
                    stored = h.stored;
                    cached = elim h.cached [ inl f ↦ inl (same ∙ f) | inr f ↦ inr (same ∙ f) ];
                  })
          ]

    module _ (reliable : IsReliable r) (violation_laws : CodecLaws violation_codec)
        (ban_laws : CodecLaws ban_codec) where
      -- So many requests were counted: at first neither the cache nor the database has a count.
      abbrev Counted : ℕ → Limits r.Db c.Cache → Type 0
      Counted zero s =
          (c.peek s.cache (window_key k start) ≡ none) × (r.get s.db (count_key k start) ≡ inr none)
      Counted (suc n) s = HasCount r c violation_codec ban_codec k start (suc n) s

      -- A request of the key is counted, and is told the new count.
      abbrev IsCounted : ℕ → Result ℕ × Limits r.Db c.Cache → Type 0
      IsCounted n p = (p.0 ≡ ok n) × Counted n p.1

      own_request :
          (t : ℤ) (n : ℕ) (s : Limits r.Db c.Cache)
          → current_window t ≡ start
          → n + 1 < 2 ^ 32
          → Counted n s
          → IsCounted (suc n) (increment_request_count r c violation_codec ban_codec k t s)
      own_request t zero s w small (uncached, unstored) =
          let (s', ran, has) =
            increment_first r c violation_codec ban_codec lru_laws db_laws reliable violation_laws
              ban_laws k start t s w uncached unstored in
          rw ran (refl, has)
      own_request t (suc n) s w small h =
          let (s', ran, has) =
            increment_hit r c violation_codec ban_codec lru_laws k start t (suc n) s w small h in
          let next : suc n + 1 ≡ suc (suc n) = omega arith in
          rw ran (
            ap ok next,
            record { entry = has.entry; in_cache = has.in_cache; counted = has.counted ∙ next },
          )

      other_request :
          (j : String) (t : ℤ) (n : ℕ) (s : Limits r.Db c.Cache)
          → current_window t ≡ start
          → str_eq j k ≡ false
          → let s' = (increment_request_count r c violation_codec ban_codec j t s).1 in
            (c.peek s.cache (window_key k start) ≢ none
              → c.peek s'.cache (window_key k start) ≢ none)
            → Counted n s
            → Counted n s'
      other_request j t zero s w ne stays (uncached, unstored) =
          let after =
            increment_request_count-Keeps none none j t w ne s
              (record { cached = inl uncached; stored = unstored }) in
          (elim after.cached [ inl e ↦ e | inr e ↦ e ], after.stored)
      other_request j t (suc n) s w ne stays h =
          let (value, g) = reliable.get-total s.db (count_key k start) in
          let after =
            increment_request_count-Keeps (some (h.entry)) value j t w ne s
              (record { cached = inl h.in_cache; stored = g }) in
          elim after.cached [
            | inl e ↦ record { entry = h.entry; in_cache = e; counted = h.counted }
            | inr gone ↦ absurd (stays (λ e. some_none (sym h.in_cache ∙ e)) gone)
          ]

      after_requests-Counted :
          (rs : List (String × ℤ)) (n : ℕ) (s : Limits r.Db c.Cache)
          → All (λ q. current_window q.1 ≡ start) rs
          → n + requests_of k rs < 2 ^ 32
          → StaysCached (window_key k start) rs s
          → Counted n s
          → Counted (n + requests_of k rs) (after_requests rs s)
      after_requests-Counted [] n s ws small stays h = subst (λ m. Counted m s) (omega arith) h
      after_requests-Counted ((j, t) ∷ rs) n s (w, ws) small (stay, stays) h =
          elim (Bool-cases (str_eq j k)) [
            | inl same ↦
                let own : IsCounted (suc n)
                    (increment_request_count r c violation_codec ban_codec j t s) =
                  subst
                    (λ q.
                      IsCounted (suc n)
                        (increment_request_count r c violation_codec ban_codec q t s))
                    (sym ((eq_iff j k).0 same))
                    (own_request t n s w (more_lt n _ (rw same at small)) h) in
                rw same (
                  subst
                    (λ m. Counted m (
                      after_requests rs
                        (increment_request_count r c violation_codec ban_codec j t s).1))
                    (sum n (requests_of k rs))
                    (after_requests-Counted rs (suc n) _ ws (moved_lt n _ (rw same at small)) stays
                      own.1))
            | inr ne ↦ rw ne (
                after_requests-Counted rs n _ ws (rw ne at small) stays
                  (other_request j t n s w ne stay h))
          ]

      -- In one window the requests of a key are counted without gaps, and those of other keys do not
      -- count for it: after any requests of any keys, the next request of the key is given the number of
      -- its own requests among them plus one. This asks that neither the cache nor the database has
      -- a count of the key for the window at first, that the cache does not drop the key's count
      -- in between, that its requests are fewer than 2^32, that the database does not fail, and
      -- that records are encoded and read back.
      pub increment_request_count-after_requests :
          (t : ℤ) (rs : List (String × ℤ)) (s : Limits r.Db c.Cache)
          → current_window t ≡ start
          → All (λ q. current_window q.1 ≡ start) rs
          → requests_of k rs + 1 < 2 ^ 32
          → c.peek s.cache (window_key k start) ≡ none
          → r.get s.db (count_key k start) ≡ inr none
          → StaysCached (window_key k start) rs s
          → (increment_request_count r c violation_codec ban_codec k t (after_requests rs s)).0
            ≡ ok (requests_of k rs + 1)
      increment_request_count-after_requests t rs s w ws small uncached unstored stays =
          let counted = after_requests-Counted rs 0 s ws (omega arith) stays (uncached, unstored) in
          let next = own_request t (0 + requests_of k rs) _ w (omega arith) counted in
          next.0 ∙ ap ok (omega arith)

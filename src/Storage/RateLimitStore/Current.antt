-- ===== src/Storage/RateLimitStore/Current.antt =====
-- What `get_current_count` of src/storage/rate_limit_store.rs reads after a request was counted.
use goud_chain.Prelude.{ℕ, ℤ, String, Option, some, inl, inr, Option-cases, ◌≡◌, refl, sym, ◌∙◌, ap}
use goud_chain.Errors.{ok, ok_injective}
use goud_chain.Crypto.Externals.{Bytes}
use goud_chain.Storage.Bytes.{to_le_bytes}
use goud_chain.Storage.Codec.{Codec}
use goud_chain.Storage.RocksDb.{RocksDb, put}
use goud_chain.Storage.Lru.{LruCache, LruLaws}
use goud_chain.Storage.Action.{Action, lift, ◌>>=◌, next-eq-ok}
use goud_chain.Storage.Bans.{ViolationRecord, BanRecord, next_u32}
use goud_chain.Storage.RateLimitStore.{
  RateLimitEntry, Limits, current_window, window_key, count_key, because, read_key, write_one,
  decode_count, count_from_db, increment_request_count, get_current_count,
}

module _ (r : RocksDb) (c : LruCache RateLimitEntry) (violation_codec : Codec ViolationRecord)
    (ban_codec : Codec BanRecord) (lru_laws : LruLaws c) where
  -- The cache holds this count for the window.
  abbrev Holds : String → ℤ → ℕ → Limits r.Db c.Cache → Type 0
  Holds api_key_hash start n s =
      c.peek s.cache (window_key api_key_hash start)
      ≡ some (record { count = n; window_start = start })

  count_from_db-Holds :
      (api_key_hash : String) (start : ℤ) (n : ℕ) (s : Limits r.Db c.Cache)
      → (count_from_db r c violation_codec ban_codec api_key_hash start s).0 ≡ ok n
      → Holds api_key_hash start n
          (count_from_db r c violation_codec ban_codec api_key_hash start s).1
  unfolding count_from_db
  count_from_db-Holds api_key_hash start n s h =
      let message = because r c violation_codec ban_codec in
      let finish : ℕ → Action (Limits r.Db c.Cache) ℕ = λ k s'. (
        ok (next_u32 k),
        record s' {
          cache =
              c.put s'.cache (window_key api_key_hash start)
                (record { count = next_u32 k; window_start = start });
        },
      ) in
      let save : ℕ → Action (Limits r.Db c.Cache) (Unit {0}) = λ k.
        write_one r c violation_codec ban_codec (message "Failed to update rate limit: ")
          (put (count_key api_key_hash start) (to_le_bytes 4 (next_u32 k))) in
      let decoded : Option Bytes → Action (Limits r.Db c.Cache) ℕ =
        λ stored. lift (decode_count r c violation_codec ban_codec stored) in
      let after_decode : ℕ → Action (Limits r.Db c.Cache) ℕ = λ k. save k >>= λ _. finish k in
      let (stored, _, e1) =
        next-eq-ok
          (read_key r c violation_codec ban_codec (message "Failed to read rate limit: ")
            (count_key api_key_hash start) s)
          (λ stored. decoded stored >>= after_decode) h in
      let (k, _, e2) = next-eq-ok (decoded stored _) after_decode (ap (λ p. p.0) (sym e1) ∙ h) in
      let (_, _, e3) = next-eq-ok (save k _) (λ _. finish k) (ap (λ p. p.0) (sym (e1 ∙ e2)) ∙ h) in
      let whole = e1 ∙ e2 ∙ e3 in
      let count : next_u32 k ≡ n = ok_injective (ap (λ p. p.0) (sym whole) ∙ h) in
      ap (λ p. c.peek p.1.cache (window_key api_key_hash start)) whole
      ∙ lru_laws.peek-put_self _ _ _
      ∙ ap (λ m. some (record { count = m; window_start = start })) count

  get_current_count-hit :
      (api_key_hash : String) (now : ℤ) (entry : RateLimitEntry) (s : Limits r.Db c.Cache)
      → c.peek s.cache (window_key api_key_hash (current_window now)) ≡ some entry
      → (get_current_count r c violation_codec ban_codec api_key_hash now s).0 ≡ ok entry.count
  unfolding get_current_count
  get_current_count-hit api_key_hash now entry s e = rw (e, get_current_count) refl

  -- After a call of `increment_request_count` that returned a count, whether from the cache or from the
  -- database, `get_current_count` at a time in the same window gives this count.
  pub get_current_count-increment_request_count :
      (api_key_hash : String) (now later : ℤ) (n : ℕ) (s : Limits r.Db c.Cache)
      → current_window later ≡ current_window now
      → (increment_request_count r c violation_codec ban_codec api_key_hash now s).0 ≡ ok n
      → (get_current_count r c violation_codec ban_codec api_key_hash later
          (increment_request_count r c violation_codec ban_codec api_key_hash now s).1).0
        ≡ ok n
  unfolding increment_request_count
  get_current_count-increment_request_count api_key_hash now later n s w h =
      let key = window_key api_key_hash (current_window now) in
      elim (Option-cases (c.peek s.cache key)) [
        | inl e ↦
            let kept = rw (e, increment_request_count) at h in
            get_current_count-hit api_key_hash later
              (record { count = n; window_start = current_window now }) _
              (rw (e, increment_request_count)
                (rw w (count_from_db-Holds api_key_hash (current_window now) n s kept)))
        | inr (entry, e) ↦
            let counted : ok (next_u32 entry.count) ≡ ok n = rw (e, increment_request_count) at h in
            rw (e, increment_request_count)
              (get_current_count-hit api_key_hash later
                  (record entry { count = next_u32 entry.count }) _
                  (rw w (lru_laws.peek-update_self s.cache key _))
                ∙ counted)
      ]

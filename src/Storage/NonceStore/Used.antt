-- ===== src/Storage/NonceStore/Used.antt =====
-- How long a nonce that `record_nonce` stored is seen by `is_nonce_used` (src/storage/nonce_store.rs).
use goud_chain.Prelude.{
  ℕ, ℤ, pos, ◌+ℤ◌, ltb_ℤ, String, eq_refl, List, [], ◌∷◌, Option, none, some, inl, inr, true, false,
  Bool-cases, Option-cases, ◌≡◌, refl, ◌∙◌, arith, ◌⊎◌, if◌then◌else◌,
}
use goud_chain.Errors.{ok, Fallible-cases}
use goud_chain.Storage.Bytes.{
  i64_to_be_bytes, i64_from_be_bytes, i64_from_be_bytes-to_be_bytes, IsI64,
}
use goud_chain.Storage.RocksDb.{RocksDb, RocksDbLaws, put, delete}
use goud_chain.Storage.Lru.{LruCache, LruLaws}
use goud_chain.Storage.NonceStore.{
  Nonces, NonceEntry, nonce_key, nonce_expiration_seconds, check_cache, judge, check_db,
  is_nonce_used, record_nonce,
}

module _ (r : RocksDb) (c : LruCache NonceEntry) (db_laws : RocksDbLaws r)
    (lru_laws : LruLaws c) where
  -- The nonce stands in the database with this expiry, and in the cache with it or not at all.
  pub record IsRecorded (nonce : String) (expiry : ℤ) (s : Nonces r.Db c.Cache) : Type 0 where
    pub in_db : r.get s.db (nonce_key nonce) ≡ inr (some (i64_to_be_bytes expiry))
    pub in_cache :
        (c.peek s.cache nonce ≡ none)
        ⊎ (c.peek s.cache nonce ≡ some (record { expiry_timestamp = expiry }))

  pub record_nonce-IsRecorded :
      (nonce : String) (now : ℤ) (s : Nonces r.Db c.Cache) (old : Option (List ℕ))
      → r.get s.db (nonce_key nonce) ≡ inr old
      → (record_nonce r c nonce now s).0 ≡ ok tt
      → IsRecorded nonce (now +ℤ pos nonce_expiration_seconds) (record_nonce r c nonce now s).1
  unfolding record_nonce
  record_nonce-IsRecorded nonce now s old e h =
      let expiry = now +ℤ pos nonce_expiration_seconds in
      let ops = put (nonce_key nonce) (i64_to_be_bytes expiry) ∷ [] in
      elim (Fallible-cases (r.write s.db ops)) [
        | inl (why, f) ↦ absurd (unfold record_nonce in ground (arith, f))
        | inr (db', f) ↦
            rw (f, record_nonce)
              (record {
                in_db = rw eq_refl at (db_laws.get-write s.db db' ops (nonce_key nonce) old f e);
                in_cache =
                    inr
                      (lru_laws.peek-put_self s.cache nonce (record { expiry_timestamp = expiry }));
              })
      ]

  check_cache-hit :
      (nonce : String) (expiry now : ℤ) (s : Nonces r.Db c.Cache)
      → c.peek s.cache nonce ≡ some (record { expiry_timestamp = expiry })
      → check_cache r c nonce now s ≡ (
          let touched = c.touch s.cache nonce in
          if ltb_ℤ now expiry
          then (true, record s { cache = touched })
          else (false, record s { cache = c.pop touched nonce }))
  unfolding check_cache
  check_cache-hit nonce expiry now s e = ground arith

  check_db-hit :
      (nonce : String) (expiry now : ℤ) (s : Nonces r.Db c.Cache)
      → IsI64 expiry
      → r.get s.db (nonce_key nonce) ≡ inr (some (i64_to_be_bytes expiry))
      → check_db r c nonce now s ≡ judge r c nonce now (some expiry) s
  unfolding check_db
  check_db-hit nonce expiry now s i e =
      rw (e, check_db) (rw (i64_from_be_bytes-to_be_bytes expiry i))

  check_cache-miss :
      (nonce : String) (now : ℤ) (s : Nonces r.Db c.Cache)
      → c.peek s.cache nonce ≡ none
      → check_cache r c nonce now s ≡ (false, s)
  unfolding check_cache
  check_cache-miss nonce now s e = ground arith

  check_db-before :
      (nonce : String) (expiry now : ℤ) (s : Nonces r.Db c.Cache)
      → IsI64 expiry
      → r.get s.db (nonce_key nonce) ≡ inr (some (i64_to_be_bytes expiry))
      → ltb_ℤ now expiry ≡ true
      → ((check_db r c nonce now s).0 ≡ ok true)
        × IsRecorded nonce expiry (check_db r c nonce now s).1
  check_db-before nonce expiry now s i e t =
      rw (check_db-hit nonce expiry now s i e, t)
        (
          refl,
          record {
            in_db = e;
            in_cache =
                inr (lru_laws.peek-put_self s.cache nonce (record { expiry_timestamp = expiry }));
          },
        )

  check_db-after :
      (nonce : String) (expiry now : ℤ) (s : Nonces r.Db c.Cache)
      → IsI64 expiry
      → r.get s.db (nonce_key nonce) ≡ inr (some (i64_to_be_bytes expiry))
      → ltb_ℤ now expiry ≡ false
      → (check_db r c nonce now s).0 ≡ ok false
  check_db-after nonce expiry now s i e t = rw (check_db-hit nonce expiry now s i e, t) refl

  -- Before the expiry the nonce is found, and stays recorded.
  pub is_nonce_used-before :
      (nonce : String) (expiry now : ℤ) (s : Nonces r.Db c.Cache)
      → IsI64 expiry
      → IsRecorded nonce expiry s
      → ltb_ℤ now expiry ≡ true
      → ((is_nonce_used r c nonce now s).0 ≡ ok true)
        × IsRecorded nonce expiry (is_nonce_used r c nonce now s).1
  unfolding is_nonce_used
  is_nonce_used-before nonce expiry now s i h t = elim h.in_cache [
    | inl e ↦ rw (check_cache-miss nonce now s e) (check_db-before nonce expiry now s i h.in_db t)
    | inr e ↦
        rw (check_cache-hit nonce expiry now s e, t)
          (
            refl,
            record {
              in_db = h.in_db;
              in_cache = inr (lru_laws.peek-touch s.cache nonce nonce ∙ e);
            },
          )
  ]

  -- From the expiry on it is not found.
  pub is_nonce_used-after :
      (nonce : String) (expiry now : ℤ) (s : Nonces r.Db c.Cache)
      → IsI64 expiry
      → IsRecorded nonce expiry s
      → ltb_ℤ now expiry ≡ false
      → (is_nonce_used r c nonce now s).0 ≡ ok false
  unfolding is_nonce_used
  is_nonce_used-after nonce expiry now s i h t = elim h.in_cache [
    | inl e ↦ rw (check_cache-miss nonce now s e) (check_db-after nonce expiry now s i h.in_db t)
    | inr e ↦
        rw (check_cache-hit nonce expiry now s e, t)
          (check_db-after nonce expiry now
            (record s { cache = c.pop (c.touch s.cache nonce) nonce }) i h.in_db t)
  ]

  -- A lookup leaves the key of its nonce readable.
  abbrev Readable : String → Nonces r.Db c.Cache → Type 0
  Readable key s = (old : Option (List ℕ)) × (r.get s.db key ≡ inr old)

  check_cache-Readable :
      (nonce : String) (now : ℤ) (s : Nonces r.Db c.Cache)
      → Readable (nonce_key nonce) s
      → Readable (nonce_key nonce) (check_cache r c nonce now s).1
  unfolding check_cache
  check_cache-Readable nonce now s h = elim (Option-cases (c.peek s.cache nonce)) [
    | inl e ↦ rw (e, check_cache) h
    | inr (entry, e) ↦ elim (Bool-cases (ltb_ℤ now entry.expiry_timestamp)) [
      | inl t ↦ rw (e, t, check_cache) h
      | inr t ↦ rw (e, t, check_cache) h
    ]
  ]

  judge-Readable :
      (nonce : String) (now : ℤ) (found : Option ℤ) (s : Nonces r.Db c.Cache)
      → Readable (nonce_key nonce) s
      → Readable (nonce_key nonce) (judge r c nonce now found s).1
  judge-Readable nonce now none s h = h
  judge-Readable nonce now (some z) s h =
      let ops = delete (nonce_key nonce) ∷ [] in
      elim (Bool-cases (ltb_ℤ now z)) [
        | inl t ↦ rw t h
        | inr t ↦ elim (Fallible-cases (r.write s.db ops)) [
          | inl (why, w) ↦ rw (t, w) h
          | inr (d, w) ↦ rw (t, w) (_, db_laws.get-write s.db d ops (nonce_key nonce) h.0 w h.1)
        ]
      ]

  check_db-Readable :
      (nonce : String) (now : ℤ) (s : Nonces r.Db c.Cache)
      → Readable (nonce_key nonce) s
      → Readable (nonce_key nonce) (check_db r c nonce now s).1
  unfolding check_db
  check_db-Readable nonce now s h = elim (Option-cases h.0) [
    | inl e ↦ rw (h.1, e, check_db) h
    | inr (bytes, e) ↦
        rw (h.1, e, check_db) (judge-Readable nonce now (i64_from_be_bytes bytes) s h)
  ]

  pub is_nonce_used-Readable :
      (nonce : String) (now : ℤ) (s : Nonces r.Db c.Cache)
      → ((old : Option (List ℕ)) × (r.get s.db (nonce_key nonce) ≡ inr old))
      → (old : Option (List ℕ)) × (r.get (is_nonce_used r c nonce now s).1.db (nonce_key nonce)
          ≡ inr old)
  unfolding is_nonce_used
  is_nonce_used-Readable nonce now s h = elim (Bool-cases (check_cache r c nonce now s).0) [
    | inl t ↦ rw t (check_cache-Readable nonce now s h)
    | inr t ↦ rw t (
        check_db-Readable nonce now (check_cache r c nonce now s).1
          (check_cache-Readable nonce now s h))
  ]

-- ===== src/Storage/NonceStore/Others.antt =====
-- What the calls for one nonce leave of the record of another (src/storage/nonce_store.rs).
use text.Mathlib.TextLemmas.{append_cancel_left}
use goud_chain.Prelude.{
  ℕ, ℤ, pos, ◌+ℤ◌, ltb_ℤ, String, str_eq, eq_iff, Option, none, some, inl, inr, false, Bool-cases,
  Option-cases, ◌≡◌, refl, arith, List, [], ◌∷◌,
}
use goud_chain.Errors.{Fallible-cases}
use goud_chain.Storage.Bytes.{i64_to_be_bytes, i64_from_be_bytes}
use goud_chain.Storage.RocksDb.{RocksDb, RocksDbLaws, WriteOp, put, delete, after}
use goud_chain.Storage.Lru.{LruCache, LruLaws}
use goud_chain.Storage.NonceStore.{
  Nonces, NonceEntry, nonce_key, nonce_expiration_seconds, deleted, check_cache, judge, check_db,
  is_nonce_used, record_nonce,
}
use goud_chain.Storage.NonceStore.Used.{IsRecorded}

nonce_key-ne : (a b : String) → str_eq a b ≡ false → str_eq (nonce_key a) (nonce_key b) ≡ false
nonce_key-ne a b h = elim (Bool-cases (str_eq (nonce_key a) (nonce_key b))) [
  | inl e ↦ absurd (
      ground (
        arith,
        eq_iff a b,
        append_cancel_left "nonce:" a b ((eq_iff (nonce_key a) (nonce_key b)).0 e),
      ))
  | inr e ↦ e
]

module _ (r : RocksDb) (c : LruCache NonceEntry) (db_laws : RocksDbLaws r) (lru_laws : LruLaws c)
    (nonce other : String) (ne : str_eq other nonce ≡ false) (expiry : ℤ) where
  abbrev pub Recorded : Nonces r.Db c.Cache → Type 0
  Recorded = IsRecorded r c db_laws lru_laws nonce expiry

  put_keeps :
      (s : Nonces r.Db c.Cache) (e : NonceEntry)
      → Recorded s
      → Recorded (record s { cache = c.put s.cache other e })
  put_keeps s e h = record {
    in_db = h.in_db;
    in_cache = elim (lru_laws.peek-put_ne s.cache other nonce e ne) [
      | inl k ↦ rw k h.in_cache
      | inr k ↦ inl k
    ];
  }

  touch_keeps :
      (s : Nonces r.Db c.Cache) → Recorded s → Recorded (record s { cache = c.touch s.cache other })
  touch_keeps s h = record {
    in_db = h.in_db;
    in_cache = rw (lru_laws.peek-touch s.cache other nonce) h.in_cache;
  }

  pop_keeps :
      (s : Nonces r.Db c.Cache) → Recorded s → Recorded (record s { cache = c.pop s.cache other })
  pop_keeps s h = record {
    in_db = h.in_db;
    in_cache = rw (lru_laws.peek-pop_ne s.cache other nonce ne) h.in_cache;
  }

  write_keeps :
      (s : Nonces r.Db c.Cache) (d : r.Db) (op : WriteOp)
      → ((old : Option (List ℕ)) → after op (nonce_key nonce) old ≡ old)
      → r.write s.db (op ∷ []) ≡ inr d
      → Recorded s
      → Recorded (record s { db = d })
  write_keeps s d op a w h = record {
    in_db = rw a at (
        db_laws.get-write s.db d (op ∷ []) (nonce_key nonce) (some (i64_to_be_bytes expiry)) w
          h.in_db);
    in_cache = h.in_cache;
  }

  deleted_keeps :
      (s : Nonces r.Db c.Cache)
      → Recorded s
      → Recorded (record s { db = deleted r c (r.write s.db (delete (nonce_key other) ∷ [])) s.db })
  deleted_keeps s h = elim (Fallible-cases (r.write s.db (delete (nonce_key other) ∷ []))) [
    | inl (why, w) ↦ rw w h
    | inr (d, w) ↦ rw w (
        write_keeps s d (delete (nonce_key other)) (λ old. rw (nonce_key-ne other nonce ne) refl) w
          h)
  ]

  check_cache_keeps :
      (now : ℤ) (s : Nonces r.Db c.Cache) → Recorded s → Recorded (check_cache r c other now s).1
  unfolding check_cache
  check_cache_keeps now s h = elim (Option-cases (c.peek s.cache other)) [
    | inl e ↦ rw (e, check_cache) h
    | inr (entry, e) ↦ elim (Bool-cases (ltb_ℤ now entry.expiry_timestamp)) [
      | inl t ↦ rw (e, t, check_cache) (touch_keeps s h)
      | inr t ↦
          rw (e, t, check_cache)
            (pop_keeps (record s { cache = c.touch s.cache other }) (touch_keeps s h))
    ]
  ]

  judge_keeps :
      (now : ℤ) (found : Option ℤ) (s : Nonces r.Db c.Cache)
      → Recorded s
      → Recorded (judge r c other now found s).1
  judge_keeps now none s h = h
  judge_keeps now (some z) s h = elim (Bool-cases (ltb_ℤ now z)) [
    | inl t ↦ rw t (put_keeps s (record { expiry_timestamp = z }) h)
    | inr t ↦ rw t (deleted_keeps s h)
  ]

  check_db_keeps :
      (now : ℤ) (s : Nonces r.Db c.Cache) → Recorded s → Recorded (check_db r c other now s).1
  unfolding check_db
  check_db_keeps now s h = elim (Fallible-cases (r.get s.db (nonce_key other))) [
    | inl (why, g) ↦ rw (g, check_db) h
    | inr (found, g) ↦ elim (Option-cases found) [
      | inl e ↦ rw (g, e, check_db) h
      | inr (bytes, e) ↦ rw (g, e, check_db) (judge_keeps now (i64_from_be_bytes bytes) s h)
    ]
  ]

  -- A lookup of another nonce, at any time, leaves the record.
  pub is_nonce_used_keeps :
      (now : ℤ) (s : Nonces r.Db c.Cache) → Recorded s → Recorded (is_nonce_used r c other now s).1
  unfolding is_nonce_used
  is_nonce_used_keeps now s h = elim (Bool-cases (check_cache r c other now s).0) [
    | inl t ↦ rw t (check_cache_keeps now s h)
    | inr t ↦ rw t (check_db_keeps now (check_cache r c other now s).1 (check_cache_keeps now s h))
  ]

  -- So does the recording of another nonce.
  pub record_nonce_keeps :
      (now : ℤ) (s : Nonces r.Db c.Cache) → Recorded s → Recorded (record_nonce r c other now s).1
  unfolding record_nonce
  record_nonce_keeps now s h =
      let later = now +ℤ pos nonce_expiration_seconds in
      let op = put (nonce_key other) (i64_to_be_bytes later) in
      elim (Fallible-cases (r.write s.db (op ∷ []))) [
        | inl (why, w) ↦ rw (w, record_nonce) h
        | inr (d, w) ↦
            rw (w, record_nonce)
              (put_keeps (record s { db = d }) (record { expiry_timestamp = later })
                (write_keeps s d op (λ old. rw (nonce_key-ne other nonce ne) refl) w h))
      ]

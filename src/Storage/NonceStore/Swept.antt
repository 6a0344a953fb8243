-- ===== src/Storage/NonceStore/Swept.antt =====
-- The cleanup reaches every expired nonce (`cleanup_expired_nonces` of src/storage/nonce_store.rs).
use text.Mathlib.Text.{starts_with}
use goud_chain.Prelude.{
  ℕ, ℤ, leb_ℤ, String, str_eq, str_lt, eq_iff, str_lt-append, starts_with-append,
  starts_with-between, List, [], ◌∷◌, map, All, none, some, inl, inr, true, false, Bool-cases,
  Option-cases, ◌≡◌, ap, ◌∙◌,
}
use goud_chain.Errors.{Fallible-cases}
use goud_chain.Crypto.Externals.{Bytes}
use goud_chain.Storage.Bytes.{
  i64_to_be_bytes, i64_from_be_bytes, i64_from_be_bytes-to_be_bytes, IsI64,
}
use goud_chain.Storage.RocksDb.{
  RocksDb, RocksDbLaws, RocksIter, RocksIterLaws, IsListed, IsOrdered, delete, listed_later,
}
use goud_chain.Storage.Lru.{LruCache}
use goud_chain.Storage.NonceStore.{Nonces, NonceEntry, nonce_key, deleted}
use goud_chain.Storage.NonceStore.Cleanup.{sweep_entry, sweep, cleanup_expired_nonces}

module _ (r : RocksDb) (c : LruCache NonceEntry) (it : RocksIter r) (db_laws : RocksDbLaws r)
    (it_laws : RocksIterLaws r it) (nonce : String) (expiry now : ℤ) where
  abbrev IsGone : r.Db → Type 0
  IsGone db = r.get db (nonce_key nonce) ≡ inr none

  deleted-IsGone :
      (key : String) (db : r.Db)
      → IsGone db
      → IsGone (deleted r c (r.write db (delete key ∷ [])) db)
  deleted-IsGone key db h = elim (Fallible-cases (r.write db (delete key ∷ []))) [
    | inl (why, w) ↦ rw w h
    | inr (d, w) ↦
        let gone = db_laws.get-write db d (delete key ∷ []) (nonce_key nonce) none w h in
        elim (Bool-cases (str_eq key (nonce_key nonce))) [
          | inl t ↦ rw w (rw t at gone)
          | inr t ↦ rw w (rw t at gone)
        ]
  ]

  sweep_entry-IsGone :
      (key : String) (value : Bytes) (n : ℕ) (db : r.Db)
      → IsGone db
      → IsGone (sweep_entry r c it now key value (n, db)).1
  unfolding sweep_entry
  sweep_entry-IsGone key value n db h = elim (Option-cases (i64_from_be_bytes value)) [
    | inl e ↦ rw (e, sweep_entry) h
    | inr (z, e) ↦ elim (Bool-cases (leb_ℤ z now)) [
      | inr t ↦ rw (e, t, sweep_entry) h
      | inl t ↦ rw (e, t, sweep_entry) (deleted-IsGone key db h)
    ]
  ]

  sweep-IsGone :
      (es : List (String × Bytes)) (n : ℕ) (db : r.Db)
      → IsGone db
      → IsGone (sweep r c it now (map inr es) (n, db)).1
  unfolding sweep
  sweep-IsGone [] n db h = h
  sweep-IsGone ((key, value) ∷ es) n db h = elim (Bool-cases (starts_with key "nonce:")) [
    | inr t ↦ rw (t, sweep) h
    | inl t ↦
        let after = sweep_entry r c it now key value (n, db) in
        rw (t, sweep) (sweep-IsGone es after.0 after.1 (sweep_entry-IsGone key value n db h))
  ]

  module _ (i : IsI64 expiry) (expired : leb_ℤ expiry now ≡ true)
      (deletes : (db : r.Db) (k : String) → (d : r.Db) × (r.write db (delete k ∷ []) ≡ inr d)) where
    sweep_entry_removes :
        (key : String) (value : Bytes) (n : ℕ) (db : r.Db)
        → key ≡ nonce_key nonce
        → value ≡ i64_to_be_bytes expiry
        → IsGone (sweep_entry r c it now key value (n, db)).1
    unfolding sweep_entry
    sweep_entry_removes key value n db k v =
        let read : i64_from_be_bytes value ≡ some expiry =
          ap i64_from_be_bytes v ∙ i64_from_be_bytes-to_be_bytes expiry i in
        let (d, w) = deletes db key in
        let (old, g) = it_laws.get-total db (nonce_key nonce) in
        let gone : IsGone d =
          rw ((eq_iff key (nonce_key nonce)).1 k) at
            (db_laws.get-write db d (delete key ∷ []) (nonce_key nonce) old w g) in
        rw (read, expired, sweep_entry) (rw w gone)

    sweep_removes :
        (es : List (String × Bytes)) (n : ℕ) (db : r.Db)
        → All (λ e. str_lt e.0 "nonce:" ≡ false) es
        → IsOrdered es
        → IsListed (nonce_key nonce) (i64_to_be_bytes expiry) es
        → IsGone (sweep r c it now (map inr es) (n, db)).1
    unfolding sweep
    sweep_removes [] n db low order l = absurd l
    sweep_removes ((key, value) ∷ es) n db (low, lows) (first, order) l =
        let here = starts_with-append "nonce:" nonce in
        elim (Bool-cases (starts_with key "nonce:")) [
          | inr t ↦ elim l [
            | inl (k, v) ↦ let starts : starts_with key "nonce:" ≡ true = rw k here in cc
            | inr later ↦
                let above = listed_later (nonce_key nonce) _ key es first later in
                let starts = starts_with-between "nonce:" key (nonce_key nonce) low above here in cc
          ]
          | inl t ↦
              let after = sweep_entry r c it now key value (n, db) in
              rw (t, sweep)
                elim l [
                  | inl (k, v) ↦
                      sweep-IsGone es after.0 after.1 (sweep_entry_removes key value n db k v)
                  | inr later ↦ sweep_removes es after.0 after.1 lows order later
                ]
        ]

    -- A nonce whose stored expiry is not after the time of a cleanup is gone from the database
    -- after it, wherever the entry stands among the others, where the entries can be read and
    -- deletions do not fail.
    pub cleanup_expired_nonces_removes :
        (s : Nonces r.Db c.Cache)
        → r.get s.db (nonce_key nonce) ≡ inr (some (i64_to_be_bytes expiry))
        → r.get (cleanup_expired_nonces r c it now s).1.db (nonce_key nonce) ≡ inr none
    unfolding cleanup_expired_nonces
    cleanup_expired_nonces_removes s g =
        let listed =
          it_laws.get-listed s.db "nonce:" (nonce_key nonce) (i64_to_be_bytes expiry) g
            (str_lt-append "nonce:" nonce) in
        rw (it_laws.iterates s.db "nonce:") (
          sweep_removes (it_laws.entries s.db "nonce:") 0 s.db (it_laws.from_prefix s.db "nonce:")
            (it_laws.ordered s.db "nonce:") listed)

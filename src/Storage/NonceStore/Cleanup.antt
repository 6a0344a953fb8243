-- ===== src/Storage/NonceStore/Cleanup.antt =====
-- The periodic cleanup of the nonces, `cleanup_expired_nonces` of src/storage/nonce_store.rs. The
-- iterator reads the entries as they were when it was made, before the first deletion.
use goud_chain.Prelude.{
  ℕ, ℤ, leb_ℤ, ltb_ℤ, String, str_eq, str_eq_ne, List, [], ◌∷◌, map, none, some, inl, inr, true,
  false, Bool-cases, Option-cases, ◌≡◌, ◌≢◌, refl, ap, ◌∙◌, sym, arith, if◌then◌else◌, ◌+++◌,
}
use text.Mathlib.Text.{starts_with}
use mathlib.Core.Option.{some-injective}
use goud_chain.Errors.{Result, ok, err, Fallible, Fallible-cases, inr_injective, rocks_db_error}
use goud_chain.Crypto.Externals.{Bytes}
use goud_chain.Storage.Bytes.{
  i64_to_be_bytes, i64_from_be_bytes, i64_from_be_bytes-to_be_bytes, IsI64,
}
use goud_chain.Storage.RocksDb.{RocksDb, RocksDbLaws, RocksIter, RocksIterLaws, IsListed, delete}
use goud_chain.Storage.Lru.{LruCache, LruLaws}
use goud_chain.Storage.Action.{Action}
use goud_chain.Storage.Bans.{next_u32}
use goud_chain.Storage.NonceStore.{Nonces, NonceEntry, nonce_key, deleted, is_nonce_used}
use goud_chain.Storage.NonceStore.Used.{IsRecorded, is_nonce_used-before}

not_both : (a b : ℤ) → ltb_ℤ a b ≡ true → leb_ℤ b a ≡ true → ⊥
not_both a b h k = ground arith

module _ (r : RocksDb) (c : LruCache NonceEntry) (it : RocksIter r) where
  -- An entry whose value is not eight bytes is left alone.
  unfoldable pub sweep_entry : ℤ → String → Bytes → ℕ × r.Db → ℕ × r.Db
  sweep_entry now key value (n, db) = elim (i64_from_be_bytes value) [
    | none ↦ (n, db)
    | some expiry ↦
        if leb_ℤ expiry now
        then (next_u32 n, deleted r c (r.write db (delete key ∷ [])) db)
        else (n, db)
  ]

  unfoldable pub sweep : ℤ → List (Fallible (String × Bytes)) → ℕ × r.Db → Result ℕ × r.Db
  unfolding sweep_entry
  sweep now [] (n, db) = (ok n, db)
  sweep now (inl e ∷ rest) (n, db) = (err (rocks_db_error ("Failed to iterate nonces: " +++ e)), db)
  sweep now (inr (key, value) ∷ rest) (n, db) =
      let others = sweep now rest (sweep_entry now key value (n, db)) in
      if starts_with key "nonce:" then others else (ok n, db)

  unfoldable pub cleanup_expired_nonces : ℤ → Action (Nonces r.Db c.Cache) ℕ
  unfolding sweep
  cleanup_expired_nonces now s =
      let (result, db') = sweep now (it.prefix_iterator s.db "nonce:") (0, s.db) in
      (result, record s { db = db' })

  module _ (db_laws : RocksDbLaws r) (nonce : String) (expiry now : ℤ) (i : IsI64 expiry)
      (valid : ltb_ℤ now expiry ≡ true) where
    abbrev Stored : r.Db → Type 0
    Stored db = r.get db (nonce_key nonce) ≡ inr (some (i64_to_be_bytes expiry))

    delete-Stored :
        (key : String) (db : r.Db)
        → str_eq key (nonce_key nonce) ≡ false
        → Stored db
        → Stored (deleted r c (r.write db (delete key ∷ [])) db)
    delete-Stored key db ne h = elim (Fallible-cases (r.write db (delete key ∷ []))) [
      | inl (why, w) ↦ rw w h
      | inr (d, w) ↦
          rw w (rw ne at (db_laws.get-write db d (delete key ∷ []) (nonce_key nonce) _ w h))
    ]

    expired-ne :
        {value : Bytes} (z : ℤ)
        → i64_from_be_bytes value ≡ some z
        → leb_ℤ z now ≡ true
        → value ≢ i64_to_be_bytes expiry
    expired-ne {value} z e t same =
        let read : some z ≡ some expiry =
          sym e ∙ ap i64_from_be_bytes same ∙ i64_from_be_bytes-to_be_bytes expiry i in
        let z_eq : z ≡ expiry = some-injective _ _ read in
        let late : leb_ℤ expiry now ≡ true = rw z_eq at t in not_both now expiry valid late

    sweep_entry-Stored :
        (key : String) (value : Bytes) (n : ℕ) (db : r.Db)
        → (key ≡ nonce_key nonce → value ≡ i64_to_be_bytes expiry)
        → Stored db
        → Stored (sweep_entry now key value (n, db)).1
    unfolding sweep_entry
    sweep_entry-Stored key value n db own h = elim (Option-cases (i64_from_be_bytes value)) [
      | inl e ↦ rw (e, sweep_entry) h
      | inr (z, e) ↦ elim (Bool-cases (leb_ℤ z now)) [
        | inr t ↦ rw (e, t, sweep_entry) h
        | inl t ↦
            rw (e, t, sweep_entry)
              (delete-Stored key db (str_eq_ne key _ (λ k. expired-ne z e t (own k))) h)
      ]
    ]

    sweep-Stored :
        (es : List (String × Bytes)) (n : ℕ) (db : r.Db)
        → ((value : Bytes) → IsListed (nonce_key nonce) value es → value ≡ i64_to_be_bytes expiry)
        → Stored db
        → Stored (sweep now (map inr es) (n, db)).1
    unfolding sweep
    sweep-Stored [] n db own h = h
    sweep-Stored ((key, value) ∷ es) n db own h = elim (Bool-cases (starts_with key "nonce:")) [
      | inr t ↦ rw (t, sweep) h
      | inl t ↦
          let after = sweep_entry now key value (n, db) in
          rw (t, sweep)
            (sweep-Stored es after.0 after.1 (λ v l. own v (inr l))
              (sweep_entry-Stored key value n db (λ k. own value (inl (k, refl))) h))
    ]

    -- Nor does the cleanup fail, where the entries can be read.
    sweep-total :
        (es : List (String × Bytes)) (n : ℕ) (db : r.Db)
        → (m : ℕ) × ((sweep now (map inr es) (n, db)).0 ≡ ok m)
    unfolding sweep
    sweep-total [] n db = (n, refl)
    sweep-total ((key, value) ∷ es) n db = elim (Bool-cases (starts_with key "nonce:")) [
      | inr t ↦ (n, rw (t, sweep) refl)
      | inl t ↦
          let after = sweep_entry now key value (n, db) in
          rw (t, sweep) (sweep-total es after.0 after.1)
    ]

    -- A cleanup at a time before the expiry of a recorded nonce gives a number, and a lookup at a time
    -- before the expiry still finds the nonce, where the entries can be read. Deletions may fail.
    pub is_nonce_used-cleanup_expired_nonces :
        (lru_laws : LruLaws c) (it_laws : RocksIterLaws r it) (later : ℤ) (s : Nonces r.Db c.Cache)
        → ltb_ℤ later expiry ≡ true
        → IsRecorded r c db_laws lru_laws nonce expiry s
        → ((m : ℕ) × ((cleanup_expired_nonces now s).0 ≡ ok m))
          × ((is_nonce_used r c nonce later (cleanup_expired_nonces now s).1).0 ≡ ok true)
    unfolding cleanup_expired_nonces
    is_nonce_used-cleanup_expired_nonces lru_laws it_laws later s t h =
        let es = it_laws.entries s.db "nonce:" in
        let own : (value : Bytes)
            → IsListed (nonce_key nonce) value es
            → value ≡ i64_to_be_bytes expiry =
          λ value l. some-injective _ _ (
            inr_injective
              (sym (it_laws.listed-get s.db "nonce:" (nonce_key nonce) value l) ∙ h.in_db)) in
        let kept : IsRecorded r c db_laws lru_laws nonce expiry (cleanup_expired_nonces now s).1 =
          record {
            in_db = rw (it_laws.iterates s.db "nonce:") (sweep-Stored es 0 s.db own h.in_db);
            in_cache = h.in_cache;
          } in
        (
          rw (it_laws.iterates s.db "nonce:") (sweep-total es 0 s.db),
          (is_nonce_used-before r c db_laws lru_laws nonce expiry later _ i kept t).0,
        )

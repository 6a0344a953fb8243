-- ===== src/Storage/NonceStore.antt =====
-- src/storage/nonce_store.rs: the nonces of signed requests, in RocksDB and in an LRU cache. The clock is
-- an argument of each method.
pub mod Used
pub mod Others
pub mod Cleanup
pub mod Swept
use goud_chain.Prelude.{
  ℕ, zero, suc, ◌+◌, ℤ, pos, ◌+ℤ◌, ltb_ℤ, [], ◌∷◌, String, ◌+++◌, Option, none, some, inl, inr,
  Bool, true, false, if◌then◌else◌,
}
use goud_chain.Errors.{Result, ok, err, panic, Fallible, rocks_db_error}
use goud_chain.Crypto.Externals.{Bytes}
use goud_chain.Storage.Bytes.{i64_to_be_bytes, i64_from_be_bytes}
use goud_chain.Storage.RocksDb.{RocksDb, put, delete}
use goud_chain.Storage.Lru.{LruCache}
use goud_chain.Storage.Action.{Action}

abbrev pub nonce_expiration_seconds : ℕ
nonce_expiration_seconds = 300

pub record NonceEntry : Type 0 where
  pub expiry_timestamp : ℤ

pub record Nonces (Db Cache : Type 0) : Type 0 where
  pub db : Db
  pub cache : Cache

abbrev pub nonce_key : String → String
nonce_key nonce = "nonce:" +++ nonce

module _ (r : RocksDb) (c : LruCache NonceEntry) where
  abbrev pub NonceStore : Type 0
  NonceStore = Nonces r.Db c.Cache

  -- `self.db.delete(key).ok()`: a failure is ignored.
  abbrev pub deleted : Fallible r.Db → r.Db → r.Db
  deleted (inl e) db = db
  deleted (inr db') db = db'

  -- The lookup in the cache: whether it shows a nonce that is still valid, and the cache, from which an
  -- expired entry is removed.
  unfoldable pub check_cache : String → ℤ → NonceStore → Bool × NonceStore
  check_cache nonce now s =
      let touched = c.touch s.cache nonce in
      elim (c.peek s.cache nonce) [
        | none ↦ (false, s)
        | some entry ↦
            if ltb_ℤ now entry.expiry_timestamp
            then (true, record s { cache = touched })
            else (false, record s { cache = c.pop touched nonce })
      ]

  -- A value that is still valid goes into the cache; an expired one is deleted.
  abbrev pub judge : String → ℤ → Option ℤ → NonceStore → Result Bool × NonceStore
  judge nonce now none s = (err (rocks_db_error "Invalid nonce expiry format"), s)
  judge nonce now (some expiry) s =
      if ltb_ℤ now expiry
      then (
        ok true,
        record s { cache = c.put s.cache nonce (record { expiry_timestamp = expiry }) },
      )
      else (ok false, record s { db = deleted (r.write s.db (delete (nonce_key nonce) ∷ [])) s.db })

  unfoldable pub check_db : String → ℤ → NonceStore → Result Bool × NonceStore
  check_db nonce now s = elim (r.get s.db (nonce_key nonce)) [
    | inl e ↦ (err (rocks_db_error ("Failed to check nonce: " +++ e)), s)
    | inr none ↦ (ok false, s)
    | inr (some bytes) ↦ judge nonce now (i64_from_be_bytes bytes) s
  ]

  unfoldable pub is_nonce_used : String → ℤ → Action NonceStore Bool
  unfolding check_cache check_db
  is_nonce_used nonce now s =
      let (found, s') = check_cache nonce now s in
      if found then (ok true, s') else check_db nonce now s'

  unfoldable pub record_nonce : String → ℤ → Action NonceStore (Unit {0})
  record_nonce nonce now s =
      let expiry = now +ℤ pos nonce_expiration_seconds in
      elim (r.write s.db (put (nonce_key nonce) (i64_to_be_bytes expiry) ∷ [])) [
        | inl e ↦ (err (rocks_db_error ("Failed to record nonce: " +++ e)), s)
        | inr db' ↦ (
          ok tt,
          record { db = db'; cache = c.put s.cache nonce (record { expiry_timestamp = expiry }) },
        )
      ]

-- ===== src/Storage/RocksDb.antt =====
-- The crate `rocksdb`, as the program uses it. Keys are texts, values are bytes. A call that fails
-- leaves the database as it was.
use goud_chain.Prelude.{
  String, str_eq, str_lt, ◌⊎◌, map, All, true, false, List, [], ◌∷◌, Option, none, some, inl, inr,
  ◌≡◌, if◌then◌else◌,
}
use goud_chain.Errors.{Fallible}
use goud_chain.Crypto.Externals.{Bytes}

-- The entries of a `WriteBatch`.
pub data WriteOp : Type 0 where
  put : String → Bytes → WriteOp
  delete : String → WriteOp

-- What one entry leaves under a key.
abbrev pub after : WriteOp → String → Option Bytes → Option Bytes
after (put k v) j old = if str_eq k j then some v else old
after (delete k) j old = if str_eq k j then none else old

abbrev pub after_all : List WriteOp → String → Option Bytes → Option Bytes
after_all [] j old = old
after_all (op ∷ ops) j old = after_all ops j (after op j old)

pub record RocksDb : Type 1 where
  pub Db : Type 0
  -- `db.get(key)`
  pub get : Db → String → Fallible (Option Bytes)
  -- `db.write(batch)`; `put` and `delete` write a batch of one entry
  pub write : Db → List WriteOp → Fallible Db

-- The documented behaviour: a batch that is written takes effect as a whole, at its keys alone.
pub record RocksDbLaws (r : RocksDb) : Type 0 where
  pub get-write :
      (d d' : r.Db) (ops : List WriteOp) (j : String) (old : Option Bytes)
      → r.write d ops ≡ inr d'
      → r.get d j ≡ inr old
      → r.get d' j ≡ inr (after_all ops j old)

-- A database whose calls do not fail.
pub record IsReliable (r : RocksDb) : Type 0 where
  pub get-total : (d : r.Db) (k : String) → (old : Option Bytes) × (r.get d k ≡ inr old)
  pub write-total : (d : r.Db) (ops : List WriteOp) → (d' : r.Db) × (r.write d ops ≡ inr d')

-- `db.prefix_iterator(prefix)`: the entries from a key on, each of which may fail to be read.
pub record RocksIter (r : RocksDb) : Type 0 where
  pub prefix_iterator : r.Db → String → List (Fallible (String × Bytes))

abbrev pub IsListed : String → Bytes → List (String × Bytes) → Type 0
IsListed k v [] = ⊥
IsListed k v ((j, w) ∷ rest) = ((j ≡ k) × (w ≡ v)) ⊎ IsListed k v rest

abbrev pub IsOrdered : List (String × Bytes) → Type 0
IsOrdered [] = Unit
IsOrdered ((k, v) ∷ rest) = All (λ e. str_lt k e.0 ≡ true) rest × IsOrdered rest

-- In a list in order, what stands behind an entry is greater.
pub listed_later :
    (k : String) (v : Bytes) (j : String) (es : List (String × Bytes))
    → All (λ e. str_lt j e.0 ≡ true) es
    → IsListed k v es
    → str_lt j k ≡ true
listed_later k v j [] h l = absurd l
listed_later k v j ((k1, v1) ∷ es) (h, hs) (inl (e, _)) = rw e at h
listed_later k v j ((k1, v1) ∷ es) (h, hs) (inr l) = listed_later k v j es hs l

-- The documented behaviour, where reading does not fail: the entries from the key on, in the order of
-- the keys. The iterator does not end with the prefix.
pub record RocksIterLaws (r : RocksDb) (it : RocksIter r) : Type 0 where
  pub entries : r.Db → String → List (String × Bytes)
  pub iterates : (d : r.Db) (p : String) → it.prefix_iterator d p ≡ map inr (entries d p)
  pub from_prefix : (d : r.Db) (p : String) → All (λ e. str_lt e.0 p ≡ false) (entries d p)
  pub ordered : (d : r.Db) (p : String) → IsOrdered (entries d p)
  pub listed-get :
      (d : r.Db) (p k : String) (v : Bytes) → IsListed k v (entries d p) → r.get d k ≡ inr (some v)
  pub get-listed :
      (d : r.Db) (p k : String) (v : Bytes)
      → r.get d k ≡ inr (some v)
      → str_lt k p ≡ false
      → IsListed k v (entries d p)
  pub get-total : (d : r.Db) (k : String) → (old : Option Bytes) × (r.get d k ≡ inr old)

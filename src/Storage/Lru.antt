-- ===== src/Storage/Lru.antt =====
-- The crate `lru`: a cache under text keys that drops the entry used longest ago when it is full. A
-- lookup marks its entry as used and changes no entry; which entry a `put` drops is left open.
use goud_chain.Prelude.{String, str_eq, Bool, Option, none, some, ◌≡◌, ◌⊎◌, false}

pub record LruCache (V : Type 0) : Type 1 where
  pub Cache : Type 0
  -- The entry under a key, whatever its place in the order of use.
  pub peek : Cache → String → Option V
  -- `get` and `get_mut` move the entry to the front.
  pub touch : Cache → String → Cache
  -- A write through the reference that `get_mut` gave.
  pub update : Cache → String → V → Cache
  pub put : Cache → String → V → Cache
  -- Whether a `push` gives an entry back: the one under the key, or the one that is dropped.
  pub gives_back : Cache → String → Bool
  pub pop : Cache → String → Cache
  pub clear : Cache → Cache

-- The documented behaviour at a capacity above 0.
pub record LruLaws {V : Type 0} (c : LruCache V) : Type 0 where
  pub peek-touch : (s : c.Cache) (k j : String) → c.peek (c.touch s k) j ≡ c.peek s j
  pub peek-update_self : (s : c.Cache) (k : String) (v : V) → c.peek (c.update s k v) k ≡ some v
  pub peek-update_ne :
      (s : c.Cache) (k j : String) (v : V)
      → str_eq k j ≡ false
      → c.peek (c.update s k v) j ≡ c.peek s j
  pub peek-put_self : (s : c.Cache) (k : String) (v : V) → c.peek (c.put s k v) k ≡ some v
  pub peek-put_ne :
      (s : c.Cache) (k j : String) (v : V)
      → str_eq k j ≡ false
      → (c.peek (c.put s k v) j ≡ c.peek s j) ⊎ (c.peek (c.put s k v) j ≡ none)
  pub peek-pop_self : (s : c.Cache) (k : String) → c.peek (c.pop s k) k ≡ none
  pub peek-pop_ne :
      (s : c.Cache) (k j : String) → str_eq k j ≡ false → c.peek (c.pop s k) j ≡ c.peek s j
  pub peek-clear : (s : c.Cache) (j : String) → c.peek (c.clear s) j ≡ none

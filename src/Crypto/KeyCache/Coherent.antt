-- ===== src/Crypto/KeyCache/Coherent.antt =====
-- The keys that src/crypto/key_cache.rs gives are those that the derivation gives.
use goud_chain.Prelude.{
  ℕ, String, str_eq, eq_iff, List, ◌⊎◌, [], ◌∷◌, ◌++◌, length, take, drop, Option, none, some,
  Option-cases, unwrap_or, Bool-cases, inl, inr, ◌≡◌, refl, sym, ap, ◌∙◌,
}
use goud_chain.Crypto.Externals.{Externals, Bytes}
use goud_chain.Storage.Lru.{LruCache, LruLaws}
use goud_chain.Crypto.KeyCache.{
  CachedKeysWithTtl, KeyCache, is_fresh, next_u64, make_cache_key, derive_keys, look_up,
  derive_and_push, get_keys,
}

take-length : (a s : Bytes) → take (length a) (a ++ s) ≡ a
take-length [] s = refl
take-length (b ∷ a) s = ap (λ bs. b ∷ bs) (take-length a s)

drop-length : (a s : Bytes) → drop (length a) (a ++ s) ≡ s
drop-length [] s = refl
drop-length (b ∷ a) s = drop-length a s

-- Two joined texts of bytes with first parts of equal length have equal parts.
append-split : (a s k t : Bytes) → length a ≡ length k → a ++ s ≡ k ++ t → (a ≡ k) × (s ≡ t)
append-split a s k t n h = (
  sym (take-length a s) ∙ ap (take (length a)) h ∙ ap (λ m. take m (k ++ t)) n ∙ take-length k t,
  sym (drop-length a s) ∙ ap (drop (length a)) h ∙ ap (λ m. drop m (k ++ t)) n ∙ drop-length k t,
)

pub none_is_some : {A : Type 0} {a : A} → Path (Option A) none (some a) → ⊥
none_is_some h = cc

abbrev pub Occurs : Bytes → List Bytes → Type 0
Occurs a [] = ⊥
Occurs a (b ∷ bs) = (a ≡ b) ⊎ Occurs a bs

-- No two of these inputs, an API key and a salt each, have the same hash.
abbrev pub IsCollisionFree : Externals → List Bytes → Type 0
IsCollisionFree x inputs =
    (a b : Bytes)
    → Occurs a inputs
    → Occurs b inputs
    → x.hex_encode (x.sha256 a) ≡ x.hex_encode (x.sha256 b)
    → a ≡ b

module _ (x : Externals) (c : LruCache CachedKeysWithTtl) (inputs : List Bytes) where
  abbrev pub IsDerived : String → CachedKeysWithTtl → Type 0
  IsDerived j e =
      (api_key salt : Bytes) × (length api_key ≡ 32)
      × Occurs (api_key ++ salt) inputs
      × (j ≡ make_cache_key x api_key salt)
      × (e.keys ≡ derive_keys x api_key salt)

  -- Every entry has the keys of an API key of 32 bytes and a salt that are one of the inputs, under
  -- their cache key.
  abbrev pub IsCoherent : c.Cache → Type 0
  IsCoherent cache = (j : String) (e : CachedKeysWithTtl) → c.peek cache j ≡ some e → IsDerived j e

  module _ (laws : LruLaws c) (collision_free : IsCollisionFree x inputs) where
    derived_keys :
        (api_key salt : Bytes) (e : CachedKeysWithTtl)
        → length api_key ≡ 32
        → Occurs (api_key ++ salt) inputs
        → IsDerived (make_cache_key x api_key salt) e
        → e.keys ≡ derive_keys x api_key salt
    unfolding make_cache_key
    derived_keys api_key salt e n o (api_key1, salt1, n1, o1, j, same) =
        let (p, q) =
          append-split api_key salt api_key1 salt1 (n ∙ sym n1)
            (collision_free (api_key ++ salt) (api_key1 ++ salt1) o o1 j) in
        rw (p, q) same

    touch-IsCoherent :
        (cache : c.Cache) (k : String) → IsCoherent cache → IsCoherent (c.touch cache k)
    touch-IsCoherent cache k h j e g = h j e (sym (laws.peek-touch cache k j) ∙ g)

    pop-IsCoherent : (cache : c.Cache) (k : String) → IsCoherent cache → IsCoherent (c.pop cache k)
    pop-IsCoherent cache k h j e g = elim (Bool-cases (str_eq k j)) [
      | inl same ↦
          let gone = laws.peek-pop_self cache k in
          absurd (none_is_some (sym gone ∙ ap (c.peek (c.pop cache k)) ((eq_iff k j).0 same) ∙ g))
      | inr ne ↦ h j e (sym (laws.peek-pop_ne cache k j ne) ∙ g)
    ]

    derive_and_push-IsCoherent :
        (api_key salt : Bytes) (now : ℕ) (s : KeyCache c.Cache)
        → length api_key ≡ 32
        → Occurs (api_key ++ salt) inputs
        → IsCoherent s.cache
        → IsCoherent (derive_and_push x c api_key salt now s).1.cache
    unfolding derive_and_push
    derive_and_push-IsCoherent api_key salt now s n o h j e g =
        let k = make_cache_key x api_key salt in
        let entry : CachedKeysWithTtl = record {
          keys = derive_keys x api_key salt;
          inserted_at = now;
        } in
        elim (Bool-cases (str_eq k j)) [
          | inl same ↦
              let here = (eq_iff k j).0 same in
              let there = laws.peek-put_self s.cache k entry in
              let put_back = sym there ∙ ap (c.peek (c.put s.cache k entry)) here ∙ g in
              (
                api_key,
                salt,
                n,
                o,
                sym here,
                ap (λ held. (unwrap_or entry held).keys) (sym put_back),
              )
          | inr ne ↦ elim (laws.peek-put_ne s.cache k j entry ne) [
            | inl kept ↦ h j e (sym kept ∙ g)
            | inr dropped ↦ absurd (none_is_some (sym dropped ∙ g))
          ]
        ]

    pub get_keys-IsCoherent :
        (api_key salt : Bytes) (now : ℕ) (s : KeyCache c.Cache)
        → length api_key ≡ 32
        → Occurs (api_key ++ salt) inputs
        → IsCoherent s.cache
        → ((get_keys x c api_key salt now s).0 ≡ derive_keys x api_key salt)
          × IsCoherent (get_keys x c api_key salt now s).1.cache
    unfolding get_keys look_up derive_and_push
    get_keys-IsCoherent api_key salt now s n o h =
        let k = make_cache_key x api_key salt in
        elim (Option-cases (c.peek s.cache k)) [
          | inl e ↦
              rw (e, get_keys, look_up)
                (
                  refl,
                  derive_and_push-IsCoherent api_key salt now
                      (record s { cache = c.touch s.cache k }) n o (touch-IsCoherent s.cache k h),
                )
          | inr (entry, e) ↦ elim (Bool-cases (is_fresh now entry.inserted_at)) [
            | inl fresh ↦
                rw (e, fresh, get_keys, look_up)
                  (derived_keys api_key salt entry n o (h k entry e), touch-IsCoherent s.cache k h)
            | inr old ↦
                rw (e, old, get_keys, look_up)
                  (
                    refl,
                    derive_and_push-IsCoherent api_key salt now
                        (record {
                          cache = c.pop (c.touch s.cache k) k;
                          stats = record (s.stats) { evictions = next_u64 s.stats.evictions };
                        })
                        n o (pop-IsCoherent (c.touch s.cache k) k (touch-IsCoherent s.cache k h)),
                  )
          ]
        ]

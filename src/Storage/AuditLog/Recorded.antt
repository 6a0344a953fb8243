-- ===== src/Storage/AuditLog/Recorded.antt =====
-- The collections that a node has for an owner, in blocks or pending, stay through the flush
-- (src/storage/audit_log.rs).

use goud_chain.Prelude.{
  String, str_eq, eq_refl, List, [], ◌∷◌, ◌++◌, map, ◌⊎◌, inl, inr, ◌≡◌, refl, Bool-cases,
}
use goud_chain.Errors.{Result, ok, err, panic}
use goud_chain.Crypto.Externals.{Externals, Bytes}
use goud_chain.Crypto.Hkdf.{hash_api_key_hex}
use goud_chain.Domain.Types.{EncryptedCollection, Block, Json}
use goud_chain.Domain.Block.{owned}
use goud_chain.Domain.Blockchain.{Blockchain}
use goud_chain.Domain.Blockchain.Add.{
  Draws, wrap_collection, add_collection, commit_block, create_block, add_block,
}
use goud_chain.Domain.Blockchain.Add.Keeps.{ReadsBack}
use goud_chain.Domain.Blockchain.Find.{find_collections_by_owner}
use goud_chain.Domain.Blockchain.Find.Added.{find_collections_by_owner-add_block}

abbrev pub IsIn : {A : Type 0} → A → List A → Type 0
IsIn a [] = ⊥
IsIn a (b ∷ bs) = (a ≡ b) ⊎ IsIn a bs

module _ {A : Type 0} where
  pub IsIn-left : (a : A) (xs ys : List A) → IsIn a xs → IsIn a (xs ++ ys)
  IsIn-left a [] ys h = absurd h
  IsIn-left a (b ∷ bs) ys (inl e) = inl e
  IsIn-left a (b ∷ bs) ys (inr h) = inr (IsIn-left a bs ys h)

  pub IsIn-right : (a : A) (xs ys : List A) → IsIn a ys → IsIn a (xs ++ ys)
  IsIn-right a [] ys h = h
  IsIn-right a (b ∷ bs) ys h = inr (IsIn-right a bs ys h)

  pub IsIn-split : (a : A) (xs ys : List A) → IsIn a (xs ++ ys) → IsIn a xs ⊎ IsIn a ys
  IsIn-split a [] ys h = inr h
  IsIn-split a (b ∷ bs) ys (inl e) = inl (inl e)
  IsIn-split a (b ∷ bs) ys (inr h) = elim (IsIn-split a bs ys h) [
    | inl k ↦ inl (inr k)
    | inr k ↦ inr k
  ]

owned_kept :
    (h : String) (c d : EncryptedCollection) (pending : List EncryptedCollection)
    → IsIn c (owned h (map wrap_collection pending))
    → IsIn c (owned h (map wrap_collection (pending ++ d ∷ [])))
unfolding owned
owned_kept h c d [] i = absurd i
owned_kept h c d (p ∷ ps) i = elim (Bool-cases (str_eq p.owner_api_key_hash h)) [
  | inl t ↦ rw t elim (rw t at i) [ inl e ↦ inl e | inr k ↦ inr (owned_kept h c d ps k) ]
  | inr t ↦ rw t (owned_kept h c d ps (rw t at i))
]

owned_last :
    (h : String) (c : EncryptedCollection) (pending : List EncryptedCollection)
    → c.owner_api_key_hash ≡ h
    → IsIn c (owned h (map wrap_collection (pending ++ c ∷ [])))
unfolding owned
owned_last h c [] e = rw (e, eq_refl h) (inl refl)
owned_last h c (p ∷ ps) e = elim (Bool-cases (str_eq p.owner_api_key_hash h)) [
  | inl t ↦ rw t (inr (owned_last h c ps e))
  | inr t ↦ rw t (owned_last h c ps e)
]

module _ (x : Externals) (j : Json) where
  -- The owner's collections in the chain and among what is pending.
  abbrev pub recorded : Blockchain → Bytes → List EncryptedCollection
  recorded bc api_key =
      find_collections_by_owner x j bc api_key
      ++ owned (hash_api_key_hex x api_key) (map wrap_collection bc.pending_collections)

  pub recorded-add_collection :
      (bc : Blockchain) (c d : EncryptedCollection) (api_key : Bytes)
      → IsIn c (recorded bc api_key)
      → IsIn c (recorded (add_collection bc d) api_key)
  unfolding add_collection find_collections_by_owner
  recorded-add_collection bc c d api_key h =
      let found = find_collections_by_owner x j bc api_key in
      let hash = hash_api_key_hex x api_key in
      elim (IsIn-split c found (owned hash (map wrap_collection bc.pending_collections)) h) [
        | inl k ↦ IsIn-left c found _ k
        | inr k ↦ IsIn-right c found _ (owned_kept hash c d bc.pending_collections k)
      ]

  pub recorded-added :
      (bc : Blockchain) (c : EncryptedCollection) (api_key : Bytes)
      → c.owner_api_key_hash ≡ hash_api_key_hex x api_key
      → IsIn c (recorded (add_collection bc c) api_key)
  unfolding add_collection find_collections_by_owner
  recorded-added bc c api_key e =
      IsIn-right c (find_collections_by_owner x j bc api_key) _
        (owned_last (hash_api_key_hex x api_key) c bc.pending_collections e)

  module _ (get_encryption_key : Bytes → Bytes → Bytes) (reads_back : ReadsBack x j) where
    -- What `add_block` leaves: nothing pending, or everything as it was.
    HasAdded : Blockchain → Draws → Type 0
    HasAdded bc draws =
        ((b : Block) × ((add_block x j get_encryption_key bc draws).0 ≡ ok b)
          × ((add_block x j get_encryption_key bc draws).1.pending_collections ≡ []))
        ⊎ ((add_block x j get_encryption_key bc draws).1 ≡ bc)

    add_block-by :
        (bc : Blockchain) (draws : Draws) (m : Result Block)
        → create_block x j get_encryption_key bc draws ≡ m
        → HasAdded bc draws
    unfolding HasAdded add_block commit_block
    add_block-by bc draws (ok b) e = inl (b, rw (add_block, e) refl, rw (add_block, e) refl)
    add_block-by bc draws (err f) e = inr (rw (add_block, e) refl)
    add_block-by bc draws panic e = inr (rw (add_block, e) refl)

    -- `add_block` moves what is pending into the chain.
    pub recorded-add_block :
        (bc : Blockchain) (draws : Draws) (c : EncryptedCollection) (api_key : Bytes)
        → IsIn c (recorded bc api_key)
        → IsIn c (recorded (add_block x j get_encryption_key bc draws).1 api_key)
    unfolding owned HasAdded
    recorded-add_block bc draws c api_key h = elim (add_block-by bc draws _ refl) [
      | inl (b, made, emptied) ↦
          IsIn-left c
            (find_collections_by_owner x j (add_block x j get_encryption_key bc draws).1 api_key) _
            (rw
              (find_collections_by_owner-add_block x j get_encryption_key reads_back bc draws b
                api_key made)
              h)
      | inr same ↦ rw same h
    ]

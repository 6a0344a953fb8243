-- ===== src/Domain/Blockchain/Find/Added.antt =====
-- What the searches of src/domain/blockchain.rs find after `add_block`.
use mathlib.Core.List.{append_assoc, append-nil}
use goud_chain.Prelude.{
  String, List, [], ◌∷◌, ◌++◌, map, Bool-cases, inl, inr, ◌≡◌, refl, sym, ap, ◌∙◌,
}
use goud_chain.Errors.{ok}
use goud_chain.Crypto.Externals.{Externals, Bytes, as_bytes}
use goud_chain.Crypto.Hkdf.{hash_api_key_hex}
use goud_chain.Domain.Types.{Block, Json}
use goud_chain.Domain.Block.{owned, get_envelope_container, get_collections_by_owner}
use goud_chain.Domain.Blockchain.{Blockchain}
use goud_chain.Domain.Blockchain.Add.{Draws, wrap_collection, commit_block, add_block}
use goud_chain.Domain.Blockchain.Add.Created.{IsCreated, add_block-eq-ok}
use goud_chain.Domain.Blockchain.Add.Keeps.{ReadsBack}
use goud_chain.Domain.Blockchain.Find.{
  should_search_block, or_empty, collect_owned, find_collections_by_owner,
}

module _ (x : Externals) (j : Json) where
  collect_owned-append :
      (api_key : Bytes) (api_key_hash : String) (xs ys : List Block)
      → collect_owned x j api_key api_key_hash (xs ++ ys)
        ≡ collect_owned x j api_key api_key_hash xs ++ collect_owned x j api_key api_key_hash ys
  unfolding collect_owned
  collect_owned-append api_key api_key_hash [] ys = refl
  collect_owned-append api_key api_key_hash (block ∷ rest) ys =
      let tail = collect_owned-append api_key api_key_hash rest ys in
      elim (Bool-cases (should_search_block x j api_key_hash block)) [
        | inl t ↦
            rw (t, tail)
              (sym (
                append_assoc (or_empty x j (get_collections_by_owner x j block api_key))
                  (collect_owned x j api_key api_key_hash rest)
                  (collect_owned x j api_key api_key_hash ys)))
        | inr t ↦ rw t tail
      ]

  module _ (get_encryption_key : Bytes → Bytes → Bytes) (reads_back : ReadsBack x j) where
    get_collections_by_owner-IsCreated :
        (bc : Blockchain) (draws : Draws) (b : Block) (api_key : Bytes)
        → IsCreated x j get_encryption_key bc draws b
        → get_collections_by_owner x j b api_key
          ≡ ok (owned (hash_api_key_hex x api_key) (map wrap_collection bc.pending_collections))
    unfolding get_collections_by_owner get_envelope_container
    get_collections_by_owner-IsCreated bc draws b api_key c =
        let s = c.sealed in
        rw (s.encoded, reads_back.base64 (as_bytes s.json), reads_back.container _ s.json s.written)
          refl

    -- After `add_block` has returned a block, every owner finds what was found before, and after that the
    -- collections of theirs that were pending, in their order.
    pub find_collections_by_owner-add_block :
        (bc : Blockchain) (draws : Draws) (b : Block) (api_key : Bytes)
        → (add_block x j get_encryption_key bc draws).0 ≡ ok b
        → find_collections_by_owner x j (add_block x j get_encryption_key bc draws).1 api_key
          ≡ find_collections_by_owner x j bc api_key
            ++ owned (hash_api_key_hex x api_key) (map wrap_collection bc.pending_collections)
    unfolding find_collections_by_owner commit_block collect_owned should_search_block
    find_collections_by_owner-add_block bc draws b api_key h =
        let (c, state) = add_block-eq-ok x j get_encryption_key bc draws b h in
        let api_key_hash = hash_api_key_hex x api_key in
        rw state (
          collect_owned-append api_key api_key_hash bc.chain (b ∷ [])
          ∙ ap (λ found. collect_owned x j api_key api_key_hash bc.chain ++ found)
              (rw (get_collections_by_owner-IsCreated bc draws b api_key c, c.sealed.blind_indexes)
                (append-nil (owned api_key_hash (map wrap_collection bc.pending_collections)))))

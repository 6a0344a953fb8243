-- ===== src/Storage/BlockchainStore/Described.antt =====
-- Metadata that was saved is loaded, beside the blocks.
use text.Mathlib.TextLemmas.{cons-append}
use goud_chain.Prelude.{
  ℕ, String, show, str_eq, first_code, str_eq-first_code, List, [], ◌∷◌, length, inr, false, ◌≡◌,
  ◌≢◌, refl, ap, ◌∙◌, arith,
}
use goud_chain.Errors.{ok}
use goud_chain.Crypto.Externals.{Externals, Bytes, as_bytes}
use goud_chain.Domain.Types.{Block}
use goud_chain.Storage.Codec.{Codec}
use goud_chain.Storage.RocksDb.{RocksDb, RocksDbLaws, IsReliable, put}
use goud_chain.Storage.BlockchainStore.{block_key, save_metadata}
use goud_chain.Storage.BlockchainStore.Metadata.{load_metadata}
use goud_chain.Storage.BlockchainStore.Held.{
  length_key, HoldsChain, SparesBlocks, HoldsBlocks-write,
}

-- A text that is read back from its bytes.
abbrev pub IsUtf8 : Externals → String → Type 0
IsUtf8 x s = x.from_utf8 (as_bytes s) ≡ inr s

-- A key with another first letter is no block's.
pub put-SparesBlocks :
    (key : String) (value : Bytes) (n : ℕ)
    → first_code key ≢ 98
    → SparesBlocks n (put key value ∷ [])
put-SparesBlocks key value n ne i old h =
    rw
      (str_eq-first_code key (block_key i)
        (λ e. ne (e ∙ ap first_code (cons-append "b" "lock:" (show i)))))
      refl

module _ (r : RocksDb) (laws : RocksDbLaws r) (reliable : IsReliable r) (codec : Codec Block) where
  -- A key that is not the chain's is written without an effect on the chain.
  HoldsChain-put :
      (d d' : r.Db) (key : String) (value : Bytes) (chain : List Block)
      → first_code key ≢ 98
      → str_eq key length_key ≡ false
      → r.write d (put key value ∷ []) ≡ inr d'
      → HoldsChain r laws codec d chain
      → HoldsChain r laws codec d' chain
  HoldsChain-put d d' key value chain ne other w (counted, holds) = (
    laws.get-write d d' _ length_key _ w counted ∙ rw other refl,
    HoldsBlocks-write r laws codec d d' (length chain) _ 0 chain w
        (put-SparesBlocks key value (length chain) ne) (omega arith) holds,
  )

  -- `save_metadata` stores both texts.
  pub load_metadata-save_metadata :
      (x : Externals) (d : r.Db) (node_id schema : String) (chain : List Block)
      → IsUtf8 x node_id
      → IsUtf8 x schema
      → HoldsChain r laws codec d chain
      → (d' : r.Db) × (save_metadata r codec d node_id schema ≡ (ok tt, d'))
        × (load_metadata r x d' ≡ ok (node_id, schema))
        × HoldsChain r laws codec d' chain
  unfolding save_metadata load_metadata
  load_metadata-save_metadata x d node_id schema chain utf8_id utf8_schema held =
      let (d1, w1) = reliable.write-total d (put "metadata:node_id" (as_bytes node_id) ∷ []) in
      let (d2, w2) =
        reliable.write-total d1 (put "metadata:schema_version" (as_bytes schema) ∷ []) in
      let (old, g) = reliable.get-total d "metadata:node_id" in
      let (old', g') = reliable.get-total d1 "metadata:schema_version" in
      let id =
        laws.get-write d1 d2 _ "metadata:node_id" _ w2
          (laws.get-write d d1 _ "metadata:node_id" old w1 g) in
      let version = laws.get-write d1 d2 _ "metadata:schema_version" old' w2 g' in
      let held1 =
        HoldsChain-put d d1 "metadata:node_id" (as_bytes node_id) chain (λ e. omega (arith, e)) refl
          w1 held in
      (
        d2,
        rw (w1, w2) refl,
        rw (id, utf8_id, version, utf8_schema) refl,
        HoldsChain-put d1 d2 "metadata:schema_version" (as_bytes schema) chain
            (λ e. omega (arith, e)) refl w2 held1,
      )

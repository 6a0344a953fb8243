-- ===== src/Storage/BlockchainStore/Saved.antt =====
-- Saved blocks are loaded again, as the end of the chain.
use mathlib.Core.List.{append-nil, append_assoc}
use text.Mathlib.TextLemmas.{cons-append}
use text.Mathlib.TextLemmas.{cons-append}
use goud_chain.Prelude.{
  ℕ, suc, ◌+◌, ◌%◌, ◌^◌, ◌<◌, String, show, str_eq, first_code, str_eq-first_code, inr, List, [],
  ◌∷◌, ◌++◌, All, length, length-append, eq_refl, Option, some, false, ◌≡◌, ◌≢◌, refl, sym, ap, ◌∙◌,
  arith, All,
}
use goud_chain.Errors.{Result, ok, ◌>>=◌, map_err, map_err-eq-ok, save_failed}
use goud_chain.Crypto.Externals.{Bytes}
use goud_chain.Domain.Types.{Block}
use goud_chain.Storage.Bytes.{to_le_bytes}
use goud_chain.Storage.Codec.{Codec}
use goud_chain.Storage.RocksDb.{RocksDb, RocksDbLaws, IsReliable, WriteOp, put, after_all}
use goud_chain.Storage.BlockchainStore.{block_key, save_block, load_chain}
use goud_chain.Storage.BlockchainStore.Held.{
  length_key, block_key_ne, length_key-block_key, HoldsBlocks, HoldsChain, load_chain-HoldsChain,
  HoldsBlocks-load_chain, SparesBlocks, HoldsBlocks-write, HoldsBlocks-concat,
}

module _ (r : RocksDb) (laws : RocksDbLaws r) (codec : Codec Block) where
  block_ops : Block → Bytes → List WriteOp
  block_ops block bytes =
      put (block_key block.index) bytes
      ∷ put length_key (to_le_bytes 8 ((block.index + 1) % 2 ^ 64))
      ∷ []

  block_ops-SparesBlocks :
      (block : Block) (bytes : Bytes)
      → block.index < 2 ^ 64
      → SparesBlocks block.index (block_ops block bytes)
  unfolding block_ops
  block_ops-SparesBlocks block bytes b i old h =
      rw (block_key_ne i block.index h b, length_key-block_key i) refl

  own_block :
      (block : Block) (bytes : Bytes) (old : Option Bytes)
      → after_all (block_ops block bytes) (block_key block.index) old ≡ some bytes
  unfolding block_ops
  own_block block bytes old =
      rw (eq_refl (block_key block.index), length_key-block_key block.index) refl

  -- A block that `bincode` writes and reads back.
  abbrev pub IsStorable : Block → Type 0
  IsStorable block =
      (bytes : Bytes) × (codec.serialize block ≡ inr bytes) × (codec.deserialize bytes ≡ inr block)

  -- A saved block becomes the last one of the blocks below it, and the chain's length follows.
  pub HoldsChain-save_block :
      (reliable : IsReliable r) (d d' : r.Db) (blocks : List Block) (block : Block)
      → IsStorable block
      → HoldsBlocks r laws codec d 0 blocks
      → block.index ≡ length blocks
      → length blocks + 1 < 2 ^ 64
      → save_block r codec d block ≡ ok d'
      → HoldsChain r laws codec d' (blocks ++ block ∷ [])
  unfolding save_block block_ops
  HoldsChain-save_block reliable d d' blocks block (bytes, written, reads) holds next b saved =
      let w = map_err-eq-ok save_failed (r.write d (block_ops block bytes)) (rw written at saved) in
      let (old, g) = reliable.get-total d (block_key block.index) in
      let (old_length, g') = reliable.get-total d length_key in
      let kept =
        HoldsBlocks-write r laws codec d d' block.index (block_ops block bytes) 0 blocks w
          (block_ops-SparesBlocks block bytes (omega arith)) (omega arith) holds in
      let new =
        laws.get-write d d' (block_ops block bytes) (block_key block.index) old w g
        ∙ ap inr (own_block block bytes old) in
      let place : 0 + length blocks ≡ block.index = omega (arith, next) in
      let counted = laws.get-write d d' (block_ops block bytes) length_key old_length w g' in
      let number : (block.index + 1) % 2 ^ 64 ≡ length (blocks ++ block ∷ []) =
        omega (arith, length-append blocks (block ∷ [])) in
      (
        counted ∙ ap (λ n. inr (some (to_le_bytes 8 n))) number,
        HoldsBlocks-concat r laws codec d' 0 blocks block kept ((bytes, rw place new, reads), tt),
      )

  -- The indexes of blocks that are saved one after the other.
  abbrev pub HasIndexes : ℕ → List Block → Type 0
  HasIndexes index [] = Unit
  HasIndexes index (block ∷ rest) = (block.index ≡ index) × HasIndexes (suc index) rest

  unfoldable pub save_blocks : r.Db → List Block → Result r.Db
  save_blocks db [] = ok db
  save_blocks db (block ∷ rest) = do db' ← save_block r codec db block; save_blocks db' rest

  -- A saved block leaves the other keys alone.
  pub get-save_block :
      (reliable : IsReliable r) (d d' : r.Db) (block : Block) (key : String)
      → IsStorable block
      → first_code key ≢ 98
      → str_eq length_key key ≡ false
      → save_block r codec d block ≡ ok d'
      → r.get d' key ≡ r.get d key
  unfolding save_block block_ops
  get-save_block reliable d d' block key (bytes, written, reads) ne other saved =
      let w = map_err-eq-ok save_failed (r.write d (block_ops block bytes)) (rw written at saved) in
      let (old, g) = reliable.get-total d key in
      let apart : str_eq (block_key block.index) key ≡ false =
        str_eq-first_code (block_key block.index) key
          (λ e. ne (sym e ∙ ap first_code (cons-append "b" "lock:" (show block.index)))) in
      laws.get-write d d' (block_ops block bytes) key old w g ∙ rw (other, apart) refl ∙ sym g

  save_block_total :
      (reliable : IsReliable r) (d : r.Db) (block : Block)
      → IsStorable block
      → (d' : r.Db) × (save_block r codec d block ≡ ok d')
  unfolding save_block block_ops
  save_block_total reliable d block (bytes, written, reads) =
      let (d', w) = reliable.write-total d (block_ops block bytes) in
      (d', rw written (ap (map_err save_failed) w))

  -- Over a database that keeps its laws and does not fail: blocks that `bincode` writes and reads
  -- back, with indexes from the length of the stored chain on and below 2^64, are saved one after the
  -- other without an error, and loading then gives the stored chain with them at its end.
  pub load_chain-save_blocks :
      (reliable : IsReliable r) (d : r.Db) (chain blocks : List Block)
      → All IsStorable blocks
      → load_chain r codec d ≡ ok chain
      → HasIndexes (length chain) blocks
      → length chain + length blocks < 2 ^ 64
      → (d' : r.Db) × (save_blocks d blocks ≡ ok d')
        × (load_chain r codec d' ≡ ok (chain ++ blocks))
  unfolding save_blocks
  load_chain-save_blocks reliable d chain [] storable loaded indexes b =
      (d, refl, loaded ∙ ap ok (sym (append-nil chain)))
  load_chain-save_blocks reliable d chain (block ∷ rest) (storable, storables) loaded
        (index, indexes) b =
      let (d1, saved) = save_block_total reliable d block storable in
      let longer : length (chain ++ block ∷ []) ≡ suc (length chain) =
        omega (arith, length-append chain (block ∷ [])) in
      let held =
        HoldsChain-save_block reliable d d1 chain block storable
          (HoldsBlocks-load_chain r laws codec d chain loaded) index (omega arith) saved in
      let loaded' =
        load_chain-HoldsChain r laws codec d1 (chain ++ block ∷ []) (omega arith) held in
      let (d', saved', all) =
        load_chain-save_blocks reliable d1 (chain ++ block ∷ []) rest storables loaded'
          (rw longer indexes) (omega arith) in
      (d', rw saved saved', all ∙ ap ok (append_assoc chain (block ∷ []) rest))

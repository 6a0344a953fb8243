-- ===== src/Storage/BlockchainStore/Held.antt =====
-- The blocks that a store holds under their keys.

use text.Mathlib.TextLemmas.{cons-append, append_cancel_left}
use goud_chain.Prelude.{
  ℕ, zero, suc, ◌+◌, ◌^◌, ◌≤◌, ◌<◌, String, show, show_injective, str_eq, str_eq_ne, first_code,
  str_eq-first_code, inl, inr, List, [], ◌∷◌, ◌++◌, length, Option, none, some, false, ◌≡◌, refl,
  sym, ap, ◌∙◌, arith,
}
use goud_chain.Errors.{ok, >>=-eq-ok, Fallible, map_err-eq-ok, or_panic, ok_injective}
use goud_chain.Crypto.Externals.{Bytes}
use goud_chain.Domain.Types.{Block}
use goud_chain.Storage.Bytes.{to_le_bytes, from_le_bytes, from_le_bytes-to_le_bytes}
use goud_chain.Storage.Codec.{Codec}
use goud_chain.Storage.RocksDb.{RocksDb, RocksDbLaws, WriteOp, after_all}
use goud_chain.Storage.BlockchainStore.{block_key, read_block, load_blocks, load_length, load_chain}

abbrev pub length_key : String
length_key = "metadata:chain_length"

-- The keys of different blocks, and the key of the length, are different.
pub block_key_ne : (i j : ℕ) → i < j → j < 2 ^ 64 → str_eq (block_key j) (block_key i) ≡ false
block_key_ne i j h b = str_eq_ne (block_key j) (block_key i) λ e.
    let same =
      show_injective j i b (omega arith) (append_cancel_left "block:" (show j) (show i) e) in
    absurd (omega arith)

first_code-block_key : (i : ℕ) → first_code (block_key i) ≡ 98
first_code-block_key i = ap first_code (cons-append "b" "lock:" (show i))

pub block_key-length_key : (i : ℕ) → str_eq (block_key i) length_key ≡ false
block_key-length_key i =
    str_eq-first_code (block_key i) length_key (λ e. omega (arith, e, first_code-block_key i))

pub length_key-block_key : (i : ℕ) → str_eq length_key (block_key i) ≡ false
length_key-block_key i =
    str_eq-first_code length_key (block_key i) (λ e. omega (arith, e, first_code-block_key i))

-- A batch that does not write the first blocks.
abbrev pub SparesBlocks : ℕ → List WriteOp → Type 0
SparesBlocks n ops = (i : ℕ) (old : Option Bytes) → i < n → after_all ops (block_key i) old ≡ old

module _ (r : RocksDb) (laws : RocksDbLaws r) (codec : Codec Block) where
  -- The state of a store: the blocks from an index on, and their number.
  abbrev pub HoldsBlocks : r.Db → ℕ → List Block → Type 0
  HoldsBlocks db index [] = Unit
  HoldsBlocks db index (block ∷ rest) =
      ((bytes : Bytes) × (r.get db (block_key index) ≡ inr (some bytes))
        × (codec.deserialize bytes ≡ inr block))
      × HoldsBlocks db (suc index) rest

  -- Loading gives the blocks that the store holds, and no others.
  pub load_blocks-HoldsBlocks :
      (db : r.Db) (index : ℕ) (blocks : List Block)
      → HoldsBlocks db index blocks
      → load_blocks r codec db (length blocks) index ≡ ok blocks
  unfolding load_blocks read_block
  load_blocks-HoldsBlocks db index [] h = refl
  load_blocks-HoldsBlocks db index (block ∷ rest) ((bytes, stored, reads), h) =
      rw (stored, reads, load_blocks-HoldsBlocks db (suc index) rest h) refl

  read_block-eq-ok :
      (index : ℕ) (found : Fallible (Option Bytes)) (block : Block)
      → read_block r codec index found ≡ ok block
      → (bytes : Bytes) × (found ≡ inr (some bytes)) × (codec.deserialize bytes ≡ inr block)
  unfolding read_block
  read_block-eq-ok index (inr (some bytes)) block h =
      (bytes, refl, map_err-eq-ok (λ e. _) (codec.deserialize bytes) h)
  read_block-eq-ok index (inr none) block h = cc
  read_block-eq-ok index (inl e) block h = cc

  pub HoldsBlocks-load_blocks :
      (db : r.Db) (left index : ℕ) (blocks : List Block)
      → load_blocks r codec db left index ≡ ok blocks
      → (length blocks ≡ left) × HoldsBlocks db index blocks
  unfolding load_blocks
  HoldsBlocks-load_blocks db zero index [] h = (refl, tt)
  HoldsBlocks-load_blocks db zero index (block ∷ rest) h = cc
  HoldsBlocks-load_blocks db (suc left) index blocks h =
      let found = read_block r codec index (r.get db (block_key index)) in
      let (block, read, h1) = >>=-eq-ok found _ h in
      let (rest, loaded, h2) = >>=-eq-ok (load_blocks r codec db left (suc index)) _ h1 in
      let held = read_block-eq-ok index (r.get db (block_key index)) block read in
      let (counted, holds) = HoldsBlocks-load_blocks db left (suc index) rest loaded in
      rw (sym (ok_injective h2)) (ap suc counted, (held, holds))

  -- The number of blocks, under the key of the length.
  abbrev pub HoldsChain : r.Db → List Block → Type 0
  HoldsChain db chain =
      (r.get db length_key ≡ inr (some (to_le_bytes 8 (length chain)))) × HoldsBlocks db 0 chain

  pub load_chain-HoldsChain :
      (db : r.Db) (chain : List Block)
      → length chain < 2 ^ 64
      → HoldsChain db chain
      → load_chain r codec db ≡ ok chain
  unfolding load_chain load_length
  load_chain-HoldsChain db chain b (counted, holds) =
      rw (counted, from_le_bytes-to_le_bytes 8 (length chain) (omega arith))
        (load_blocks-HoldsBlocks db 0 chain holds)

  load_length-eq-ok :
      (db : r.Db) (found : Fallible (Option Bytes)) (chain : List Block)
      → load_length r codec db found ≡ ok chain
      → HoldsBlocks db 0 chain
  unfolding load_length
  load_length-eq-ok db (inr (some bytes)) chain h =
      let (n, read, loaded) = >>=-eq-ok (or_panic (from_le_bytes 8 bytes)) _ h in
      (HoldsBlocks-load_blocks db n 0 chain loaded).1
  load_length-eq-ok db (inr none) [] h = tt
  load_length-eq-ok db (inr none) (block ∷ rest) h = cc
  load_length-eq-ok db (inl e) chain h = cc

  -- A chain that was loaded has its blocks in the store.
  pub HoldsBlocks-load_chain :
      (db : r.Db) (chain : List Block) → load_chain r codec db ≡ ok chain → HoldsBlocks db 0 chain
  unfolding load_chain
  HoldsBlocks-load_chain db chain h = load_length-eq-ok db (r.get db length_key) chain h

  -- What such a batch leaves of them.
  pub HoldsBlocks-write :
      (d d' : r.Db) (n : ℕ) (ops : List WriteOp) (index : ℕ) (blocks : List Block)
      → r.write d ops ≡ inr d'
      → SparesBlocks n ops
      → index + length blocks ≤ n
      → HoldsBlocks d index blocks
      → HoldsBlocks d' index blocks
  HoldsBlocks-write d d' n ops index [] w spares le h = tt
  HoldsBlocks-write d d' n ops index (block ∷ rest) w spares le ((old, stored, reads), h) =
      let kept =
        laws.get-write d d' ops (block_key index) (some old) w stored
        ∙ ap inr (spares index (some old) (omega arith)) in
      ((old, kept, reads), HoldsBlocks-write d d' n ops (suc index) rest w spares (omega arith) h)

  pub HoldsBlocks-concat :
      (d : r.Db) (index : ℕ) (blocks : List Block) (block : Block)
      → HoldsBlocks d index blocks
      → HoldsBlocks d (index + length blocks) (block ∷ [])
      → HoldsBlocks d index (blocks ++ block ∷ [])
  HoldsBlocks-concat d index [] block h k =
      let here : index + 0 ≡ index = omega arith in rw here at k
  HoldsBlocks-concat d index (first ∷ rest) block (held, h) k =
      let there : index + suc (length rest) ≡ suc index + length rest = omega arith in
      (held, HoldsBlocks-concat d (suc index) rest block h (rw there at k))

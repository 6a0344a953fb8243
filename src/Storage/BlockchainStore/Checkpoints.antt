-- ===== src/Storage/BlockchainStore/Checkpoints.antt =====
-- The stored checkpoints: when the loop that loads them ends, and which operations leave them alone.
use text.Mathlib.TextLemmas.{cons-append}
use goud_chain.Prelude.{
  ℕ, zero, suc, ◌+◌, ◌%◌, ◌^◌, ◌<◌, String, show, str_eq, first_code, str_eq-first_code, List, [],
  ◌∷◌, length, Option, none, some, inl, inr, false, ◌≡◌, ◌≢◌, refl, sym, ap, ◌∙◌, arith,
}
use goud_chain.Errors.{
  ok, >>=-eq-ok, map_err, map_err-eq-ok, Fallible, Fallible-cases, or_panic, save_failed,
}
use goud_chain.Constants.{checkpoint_interval}
use goud_chain.Crypto.Externals.{Externals, Bytes, as_bytes}
use goud_chain.Domain.Types.{Block}
use goud_chain.Storage.Action.{lift, Keeps, >>=-Keeps}
use goud_chain.Storage.Bytes.{to_le_bytes, from_le_bytes}
use goud_chain.Storage.Codec.{Codec}
use goud_chain.Storage.RocksDb.{RocksDb, RocksDbLaws, IsReliable, WriteOp, put, delete, after_all}
use goud_chain.Storage.BlockchainStore.{block_key, save_block, save_metadata}
use goud_chain.Storage.BlockchainStore.Metadata.{
  checkpoint_key, load_checkpoints_from, load_checkpoints, delete_key, clear_blocks, clear_metadata,
  clear_counted, clear_all,
}

first_code-checkpoint_key : (i : ℕ) → first_code (checkpoint_key i) ≡ 99
first_code-checkpoint_key i = ap first_code (cons-append "c" "heckpoint:" (show i))

other_key : (key : String) (i : ℕ) → first_code key ≢ 99 → str_eq key (checkpoint_key i) ≡ false
other_key key i ne =
    str_eq-first_code key (checkpoint_key i) (λ e. ne (e ∙ first_code-checkpoint_key i))

pub first_code-block_key : (i : ℕ) → first_code (block_key i) ≡ 98
first_code-block_key i = ap first_code (cons-append "b" "lock:" (show i))

module _ (r : RocksDb) where
  -- The checkpoints from an index on, and the place after them, which is empty.
  abbrev pub HoldsCheckpoints : Externals → r.Db → ℕ → List String → Type 0
  HoldsCheckpoints x db index [] = r.get db (checkpoint_key index) ≡ inr none
  HoldsCheckpoints x db index (hash ∷ rest) =
      ((bytes : Bytes) × (r.get db (checkpoint_key index) ≡ inr (some bytes))
        × (x.from_utf8 bytes ≡ inr hash))
      × HoldsCheckpoints x db ((index + checkpoint_interval) % 2 ^ 64) rest

  -- More rounds than there are checkpoints are enough.
  pub load_checkpoints_from-HoldsCheckpoints :
      (x : Externals) (fuel : ℕ) (db : r.Db) (index : ℕ) (hashes : List String)
      → length hashes < fuel
      → HoldsCheckpoints x db index hashes
      → load_checkpoints_from r x fuel db index ≡ ok hashes
  unfolding load_checkpoints_from
  load_checkpoints_from-HoldsCheckpoints x zero db index hashes b h = absurd (omega arith)
  load_checkpoints_from-HoldsCheckpoints x (suc fuel) db index [] b h = rw h refl
  load_checkpoints_from-HoldsCheckpoints x (suc fuel) db index (hash ∷ rest) b
        ((bytes, stored, reads), h) =
      rw
        (
          stored,
          reads,
          load_checkpoints_from-HoldsCheckpoints x fuel db ((index + checkpoint_interval) % 2 ^ 64)
              rest (omega arith) h,
        )
        refl

  -- Two databases with the same checkpoints.
  abbrev pub HasCheckpointsOf : r.Db → r.Db → Type 0
  HasCheckpointsOf d d' = (i : ℕ) → r.get d' (checkpoint_key i) ≡ r.get d (checkpoint_key i)

  load_checkpoints_from_same :
      (x : Externals) (d d' : r.Db) (fuel index : ℕ)
      → HasCheckpointsOf d d'
      → load_checkpoints_from r x fuel d' index ≡ load_checkpoints_from r x fuel d index
  unfolding load_checkpoints_from
  load_checkpoints_from_same x d d' zero index h = refl
  load_checkpoints_from_same x d d' (suc fuel) index h =
      rw
        (h index, load_checkpoints_from_same x d d' fuel ((index + checkpoint_interval) % 2 ^ 64) h)
        refl

  pub load_checkpoints_same :
      (x : Externals) (d d' : r.Db) (fuel : ℕ)
      → HasCheckpointsOf d d'
      → load_checkpoints r x fuel d' ≡ load_checkpoints r x fuel d
  unfolding load_checkpoints
  load_checkpoints_same x d d' fuel h = load_checkpoints_from_same x d d' fuel checkpoint_interval h

  module _ (laws : RocksDbLaws r) (reliable : IsReliable r) (old : r.Db) where
    -- A batch that writes no checkpoint.
    abbrev SparesCheckpoints : List WriteOp → Type 0
    SparesCheckpoints ops = (i : ℕ) (o : Option Bytes) → after_all ops (checkpoint_key i) o ≡ o

    write-HasCheckpointsOf :
        (d d' : r.Db) (ops : List WriteOp)
        → SparesCheckpoints ops
        → r.write d ops ≡ inr d'
        → HasCheckpointsOf old d
        → HasCheckpointsOf old d'
    write-HasCheckpointsOf d d' ops spares w h i =
        let (o, g) = reliable.get-total d (checkpoint_key i) in
        laws.get-write d d' ops (checkpoint_key i) o w g ∙ ap inr (spares i o) ∙ sym g ∙ h i

    delete_key-Keeps :
        (key : String) → first_code key ≢ 99 → Keeps (HasCheckpointsOf old) (delete_key r key)
    delete_key-Keeps key ne d h = elim (Fallible-cases (r.write d (delete key ∷ []))) [
      | inl (e, w) ↦ rw w h
      | inr (d', w) ↦
          rw w (
            write-HasCheckpointsOf d d' (delete key ∷ []) (λ i o. rw (other_key key i ne) refl) w h)
    ]

    clear_blocks-Keeps : (left index : ℕ) → Keeps (HasCheckpointsOf old) (clear_blocks r left index)
    unfolding clear_blocks
    clear_blocks-Keeps zero index d h = h
    clear_blocks-Keeps (suc left) index d h =
        >>=-Keeps (HasCheckpointsOf old) (delete_key r (block_key index)) _
          (delete_key-Keeps (block_key index) (λ e. omega (arith, e, first_code-block_key index)))
          (λ _. clear_blocks-Keeps left (suc index)) d h

    clear_metadata-Keeps : Keeps (HasCheckpointsOf old) (clear_metadata r)
    unfolding clear_metadata
    clear_metadata-Keeps =
        >>=-Keeps (HasCheckpointsOf old) (delete_key r "metadata:chain_length") _
          (delete_key-Keeps "metadata:chain_length" (λ e. omega (arith, e)))
          (λ _.
            >>=-Keeps (HasCheckpointsOf old) (delete_key r "metadata:node_id") _
              (delete_key-Keeps "metadata:node_id" (λ e. omega (arith, e)))
              (λ _. delete_key-Keeps "metadata:schema_version" (λ e. omega (arith, e))))

    clear_counted-Keeps :
        (found : Fallible (Option Bytes)) → Keeps (HasCheckpointsOf old) (clear_counted r found)
    unfolding clear_counted
    clear_counted-Keeps (inr (some bytes)) d h =
        >>=-Keeps (HasCheckpointsOf old) (lift (or_panic (from_le_bytes 8 bytes))) _ (λ d h. h)
          (λ n.
            >>=-Keeps (HasCheckpointsOf old) (clear_blocks r n 0) _ (clear_blocks-Keeps n 0)
              (λ _. clear_metadata-Keeps))
          d h
    clear_counted-Keeps (inr none) d h = h
    clear_counted-Keeps (inl e) d h = h

    pub clear_all-Keeps : Keeps (HasCheckpointsOf old) (clear_all r)
    unfolding clear_all
    clear_all-Keeps d h = clear_counted-Keeps (r.get d "metadata:chain_length") d h

    pub save_block_keeps :
        (codec : Codec Block) (d d' : r.Db) (block : Block)
        → save_block r codec d block ≡ ok d'
        → HasCheckpointsOf old d
        → HasCheckpointsOf old d'
    unfolding save_block
    save_block_keeps codec d d' block saved h =
        let (bytes, written, h1) = >>=-eq-ok (map_err _ (codec.serialize block)) _ saved in
        write-HasCheckpointsOf d d' _ (spared bytes) (map_err-eq-ok save_failed _ h1) h
      where
        spared :
            (bytes : Bytes)
            → SparesCheckpoints (
                put (block_key block.index) bytes
                ∷ put "metadata:chain_length" (to_le_bytes 8 ((block.index + 1) % 2 ^ 64))
                ∷ [])
        spared bytes i o =
            rw
              (
                other_key "metadata:chain_length" i (λ e. omega (arith, e)),
                other_key (block_key block.index) i
                    (λ e. omega (arith, e, first_code-block_key block.index)),
              )
              refl

    pub save_metadata-Keeps :
        (codec : Codec Block) (node_id schema : String)
        → Keeps (HasCheckpointsOf old) (λ d. save_metadata r codec d node_id schema)
    unfolding save_metadata
    save_metadata-Keeps codec node_id schema d h =
        elim (Fallible-cases (r.write d (put "metadata:node_id" (as_bytes node_id) ∷ []))) [
          | inl (e, w) ↦ rw w h
          | inr (d1, w) ↦
              let h1 =
                write-HasCheckpointsOf d d1 _
                  (λ i o. rw (other_key "metadata:node_id" i (λ e. omega (arith, e))) refl) w h in
              elim (Fallible-cases
                (r.write d1 (put "metadata:schema_version" (as_bytes schema) ∷ []))) [
                  | inl (e, w1) ↦ rw (w, w1) h1
                  | inr (d2, w1) ↦
                      rw (w, w1)
                        (write-HasCheckpointsOf d1 d2 _
                          (λ i o.
                            rw (other_key "metadata:schema_version" i (λ e. omega (arith, e))) refl)
                          w1 h1)
                ]
        ]

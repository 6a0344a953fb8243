-- ===== src/Tests/Restarts.antt =====
-- Saved chains, and nodes that start again.
use goud_chain.Prelude.{
  zero, suc, pos, ◌==◌, str_eq, false, show, show_ℤ, [], ◌∷◌, length, none, some, inl, inr, ◌≡◌,
  refl, arith, if◌then◌else◌,
}
use goud_chain.Errors.{Result, ok, Fallible}
use goud_chain.Constants.{schema_version}
use goud_chain.Config.{round_robin}
use goud_chain.Crypto.Externals.{Externals, Bytes, as_bytes}
use goud_chain.Domain.Types.{Block}
use goud_chain.Domain.Block.{calculate_hash, new_block}
use goud_chain.Domain.Merkle.{calculate_merkle_root}
use goud_chain.Domain.Blockchain.{Blockchain}
use goud_chain.Domain.Blockchain.Add.{new}
use goud_chain.Storage.Bytes.{to_le_bytes, from_le_bytes, of_le_bytes}
use goud_chain.Storage.Codec.{Codec}
use goud_chain.Storage.BlockchainStore.{save_block, save_metadata, load_chain, load_length}
use goud_chain.Storage.BlockchainStore.Metadata.{
  load_metadata, load_checkpoints, load_checkpoints_from, is_empty, clear_all, clear_counted,
  clear_blocks, clear_metadata,
}
use goud_chain.Storage.BlockchainStore.Saved.{save_blocks, load_chain-save_blocks}
use goud_chain.Storage.Startup.{start_chain, load_schema, load_existing, load_blockchain}
use goud_chain.Storage.Startup.Ready.{resumed}
use goud_chain.Storage.Startup.Restart.{load_blockchain-restart}
use goud_chain.Storage.Startup.Discarded.{load_blockchain_stale_checkpoints}
use goud_chain.Tests.Toy.{crates, json, disk, empty}
use goud_chain.Tests.Laws.{disk_laws}
use goud_chain.Tests.Codecs.{disk-IsReliable}
use goud_chain.Tests.Chains.{validators, genesis, block, alone}

-- A block is as good as its index here.
abbrev blocks_codec : Codec Block
blocks_codec = record { serialize = λ b. inr (b.index ∷ []); deserialize = block_of }
  where
    block_of : Bytes → Fallible Block
    block_of (zero ∷ []) = inr genesis
    block_of (suc zero ∷ []) = inr block
    block_of _ = inl "no block"

-- Two texts are read.
abbrev named_crates : Externals
named_crates = record crates {
  from_utf8 = λ bytes. inr (if length bytes == 1 then "n" else schema_version);
}

abbrev started : Blockchain
started = record alone { pending_accounts_with_keys = [] }

abbrev db_of : Result disk.Db → disk.Db
db_of (ok db) = db
db_of _ = empty

-- A new node's database, and the one after its next block.
abbrev first_db : disk.Db
first_db =
    (load_blockchain named_crates json disk blocks_codec 1 "n" validators (pos 0) (pos 0) empty).1

abbrev second_db : disk.Db
second_db = db_of (save_blocks disk disk_laws blocks_codec first_db (block ∷ []))

starts :
    (load_blockchain named_crates json disk blocks_codec 1 "n" validators (pos 0) (pos 0) empty).0
    ≡ ok started
unfolding load_blockchain start_chain is_empty new round_robin new_block calculate_merkle_root
    as_bytes calculate_hash show show_ℤ save_block save_metadata
starts = refl

saves : save_blocks disk disk_laws blocks_codec first_db (block ∷ []) ≡ ok second_db
unfolding save_blocks save_block
saves = refl

no_checkpoints : load_checkpoints disk named_crates 1 second_db ≡ ok []
unfolding load_checkpoints load_checkpoints_from load_blockchain start_chain is_empty new
    round_robin new_block calculate_merkle_root as_bytes calculate_hash show show_ℤ save_block
    save_blocks save_metadata
no_checkpoints = refl

load_blockchain-restart_example :
    load_blockchain named_crates json disk blocks_codec 1 "n" validators (pos 5) (pos 7) second_db
    ≡ (
      ok (resumed named_crates json disk blocks_codec "n" validators (genesis ∷ block ∷ []) []),
      second_db,
    )
unfolding as_bytes
load_blockchain-restart_example =
    load_blockchain-restart named_crates json disk blocks_codec disk_laws disk-IsReliable 1 "n"
      validators (pos 0) (pos 0) (pos 5) (pos 7) empty second_db started (block ∷ []) [] refl refl
      ((0 ∷ [], refl, refl), tt) ((1 ∷ [], refl, refl), tt) (refl, tt) (omega arith) starts saves
      no_checkpoints

empty_chain : load_chain disk blocks_codec empty ≡ ok []
unfolding load_chain load_length
empty_chain = refl

load_chain-save_blocks_example :
    (d' : disk.Db) × (save_blocks disk disk_laws blocks_codec empty (genesis ∷ block ∷ []) ≡ ok d')
    × (load_chain disk blocks_codec d' ≡ ok (genesis ∷ block ∷ []))
load_chain-save_blocks_example =
    load_chain-save_blocks disk disk_laws blocks_codec disk-IsReliable empty []
      (genesis ∷ block ∷ []) ((0 ∷ [], refl, refl), ((1 ∷ [], refl, refl), tt)) empty_chain
      (refl, (refl, tt)) (omega arith)

-- A chain of an old schema with a checkpoint.
abbrev old_db : disk.Db
old_db key =
    if str_eq key "metadata:chain_length"
    then some (to_le_bytes 8 1)
    else if str_eq key "checkpoint:100"
    then some (7 ∷ [])
    else if str_eq key "metadata:node_id"
    then some (7 ∷ [])
    else none

abbrev reset_db : disk.Db
reset_db =
    (load_blockchain named_crates json disk blocks_codec 1 "n" validators (pos 0) (pos 0) old_db).1

old_filled : is_empty disk old_db ≡ ok false
unfolding is_empty
old_filled = refl

old_metadata : load_metadata disk named_crates old_db ≡ ok ("n", "unknown")
unfolding load_metadata
old_metadata = refl

restarts :
    (load_blockchain named_crates json disk blocks_codec 1 "n" validators (pos 0) (pos 0) old_db).0
    ≡ ok started
unfolding load_blockchain load_existing load_metadata load_schema clear_all clear_counted
    clear_blocks clear_metadata start_chain is_empty new round_robin new_block calculate_merkle_root
    as_bytes calculate_hash show show_ℤ save_block save_metadata from_le_bytes of_le_bytes
    to_le_bytes
restarts = refl

load_blockchain_stale_checkpoints_example :
    (new named_crates json "n" validators (pos 0) (pos 0) ≡ ok started)
    × (load_checkpoints disk named_crates 3 reset_db ≡ load_checkpoints disk named_crates 3 old_db)
load_blockchain_stale_checkpoints_example =
    load_blockchain_stale_checkpoints named_crates json disk blocks_codec disk_laws disk-IsReliable
      1 3 "n" validators (pos 0) (pos 0) old_db "n" "unknown" started old_filled old_metadata refl
      restarts

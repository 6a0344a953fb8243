-- ===== src/Tests/Nodes.antt =====
-- Replacing a chain, and the messages of peers, on the chain of two blocks.
use goud_chain.Prelude.{
  ◌≤◌, ◌<◌, ◌+ℤ◌, String, List, [], ◌∷◌, some, Bool, true, not, ◌≡◌, ◌≢◌, refl, ◌⊎◌, arith,
  int_laws, eq_iff, show, show_ℤ,
}
use goud_chain.Errors.{ok, err, invalid_validator}
use goud_chain.Config.{round_robin}
use goud_chain.Crypto.Externals.{as_bytes}
use goud_chain.Domain.Types.{Block}
use goud_chain.Domain.Merkle.{calculate_merkle_root}
use goud_chain.Domain.Block.{
  calculate_hash, hash_content, verify_data, get_envelope_container, verify_all,
}
use goud_chain.Domain.Blockchain.{Blockchain, next_index}
use goud_chain.Domain.Blockchain.Validate.{is_valid, check_block, check_from, check_chain}
use goud_chain.Domain.Blockchain.Replace.{
  checkpoint_block, blocked_by_checkpoint, should_replace, accepts, replace_chain,
}
use goud_chain.Domain.Blockchain.Replace.Safety.{replace_chain_accepted}
use goud_chain.Domain.Blockchain.Replace.Choice.{MayTake, replace_chain_converges}
use goud_chain.Network.Node.{
  P2PNode, Incoming, new_block, response_chain, receive_block, accept_connection,
}
use goud_chain.Network.Node.Connections.{IsAdmitted, accept_connection_chain}
use goud_chain.Network.Node.Blocks.{
  IsAcceptable, receive_block_chain, receive_block-is_valid, receive_block_unauthorized,
}
use goud_chain.Network.Node.Sync.{Response, sync_all, IsProgress, sync_all-IsProgress}
use goud_chain.Tests.Toy.{mark, crates, json, disk, empty, codec}
use goud_chain.Prelude.{pos, ◌+++◌}
use goud_chain.Tests.Chains.{
  block_data, genesis, alone, clock, block, both, node_chain, is_valid-alone,
}

accepted : (replace_chain crates json clock alone both).0 ≡ ok true
unfolding replace_chain accepts should_replace blocked_by_checkpoint checkpoint_block is_valid
    check_chain check_from check_block round_robin calculate_merkle_root as_bytes calculate_hash
    hash_content show show_ℤ verify_data get_envelope_container verify_all ◌+ℤ◌
accepted = refl

replace_chain_accepted_example :
    ((replace_chain crates json clock alone both).1 ≡ record alone { chain = both })
    × (is_valid crates json clock (replace_chain crates json clock alone both).1 ≡ ok tt)
    × (1 ≤ 2)
    × ((b : Block) → checkpoint_block alone ≡ some b → b.index < 2)
replace_chain_accepted_example = replace_chain_accepted crates json clock alone both accepted

abbrev rival : Block
rival = record block {
  timestamp = pos 1704153600;
  hash = mark ("11704153600" +++ mark block_data +++ genesis.hash +++ "v");
}

abbrev our_node : Blockchain
our_node = node_chain both

abbrev their_node : Blockchain
their_node = node_chain (genesis ∷ rival ∷ [])

hashes_differ : block.hash ≢ rival.hash
hashes_differ h = let e = (eq_iff block.hash rival.hash).1 h in cc

robin : round_robin ("v" ∷ []) 1 ≡ ok "v"
unfolding round_robin
robin = refl

takes_theirs : MayTake crates json clock our_node (genesis ∷ rival ∷ [])
unfolding blocked_by_checkpoint checkpoint_block is_valid check_chain check_from check_block
    round_robin calculate_merkle_root as_bytes calculate_hash hash_content show show_ℤ verify_data
    get_envelope_container verify_all ◌+ℤ◌
takes_theirs = record { unblocked = refl; valid = refl }

takes_ours : MayTake crates json clock their_node both
unfolding blocked_by_checkpoint checkpoint_block is_valid check_chain check_from check_block
    round_robin calculate_merkle_root as_bytes calculate_hash hash_content show show_ℤ verify_data
    get_envelope_container verify_all ◌+ℤ◌
takes_ours = record { unblocked = refl; valid = refl }

replace_chain_converges_example :
    let here = replace_chain crates json clock our_node (genesis ∷ rival ∷ []) in
    let there = replace_chain crates json clock their_node both in
    ((answer : Bool) × (here.0 ≡ ok answer) × (there.0 ≡ ok (not answer)))
    × (here.1.chain ≡ there.1.chain)
replace_chain_converges_example =
    replace_chain_converges crates json clock our_node their_node block rival "v" refl refl
      (omega arith) refl refl refl hashes_differ robin takes_theirs takes_ours

abbrev node_of : Blockchain → P2PNode disk.Db
node_of bc = record {
  peers = [];
  blockchain = bc;
  blockchain_store = empty;
  peer_reputation = [];
  rate_limiters = [];
  blacklist = [];
}

acceptable :
    (bc : Blockchain)
    → bc.chain ≡ genesis ∷ []
    → IsAcceptable crates json disk codec "p" (node_of bc) genesis block
unfolding next_index calculate_hash hash_content calculate_merkle_root show show_ℤ
acceptable bc e = record {
  new = rw e refl;
  sequential = refl;
  linked = refl;
  hashed = refl;
  rooted = refl;
}

receive_block_chain_example :
    ((receive_block crates json disk codec "p" block (node_of alone)).1.blockchain ≡ alone)
    ⊎ (IsAcceptable crates json disk codec "p" (node_of alone) genesis block
        × ((receive_block crates json disk codec "p" block (node_of alone)).1.blockchain
            ≡ record alone { chain = both }))
receive_block_chain_example =
    receive_block_chain crates json disk codec "p" (node_of alone) genesis block refl

receive_block-is_valid_example :
    is_valid crates json clock
      (receive_block crates json disk codec "p" block (node_of alone)).1.blockchain
    ≡ check_block crates json ("v" ∷ []) clock 1 genesis block
receive_block-is_valid_example =
    receive_block-is_valid crates json disk codec "p" (node_of alone) clock genesis block
      is_valid-alone refl (acceptable alone refl)

-- Two validators take turns: block 1 is the turn of `w`.
abbrev turns : Blockchain
turns = record alone {
  validator_config = record {
    validators = "v" ∷ "w" ∷ [];
    node_to_validator = [];
    validator_to_address = [];
  };
}

is_valid-turns : is_valid crates json clock turns ≡ ok tt
unfolding is_valid check_chain check_from
is_valid-turns = refl

turn_of_w : round_robin ("v" ∷ "w" ∷ []) 1 ≡ ok "w"
unfolding round_robin
turn_of_w = refl

abbrev w : String
w = "w"

not_w : block.validator ≢ w
not_w h = let e = (eq_iff "v" "w").1 h in cc

data_verified : verify_data crates json block ≡ ok tt
unfolding verify_data get_envelope_container verify_all
data_verified = refl

receive_block_unauthorized_example :
    is_valid crates json clock
      (receive_block crates json disk codec "p" block (node_of turns)).1.blockchain
    ≡ err (invalid_validator 1 "w" "v")
receive_block_unauthorized_example =
    receive_block_unauthorized crates json disk codec "p" (node_of turns) clock genesis block "w"
      is_valid-turns refl (acceptable turns refl) (omega int_laws) (omega arith) data_verified
      turn_of_w not_w

abbrev answers : List Response
answers = record { clock = clock; peer = "p"; message = response_chain both } ∷ []

sync_all-IsProgress_example :
    IsProgress crates json disk codec alone
      (sync_all crates json disk codec answers (node_of alone)).blockchain
sync_all-IsProgress_example = sync_all-IsProgress crates json disk codec answers (node_of alone)

-- The block arrives in a frame of ten bytes.
abbrev incoming : Incoming
incoming = record {
  length_prefix = ok 10;
  payload = λ len. ok [];
  decode = λ bytes. ok (new_block block);
  send = λ message. ok tt;
}

accept_connection_chain_example :
    ((accept_connection crates json disk codec "p" (0, 0) incoming (node_of alone)).blockchain
      ≡ alone)
    ⊎ (IsAdmitted crates json disk codec "p" (0, 0) (node_of alone)
        × (b : Block) × IsAcceptable crates json disk codec "p" (node_of alone) genesis b
        × ((accept_connection crates json disk codec "p" (0, 0) incoming (node_of alone)).blockchain
            ≡ record alone { chain = genesis ∷ b ∷ [] }))
accept_connection_chain_example =
    accept_connection_chain crates json disk codec "p" (0, 0) incoming (node_of alone) genesis refl

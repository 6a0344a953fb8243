-- ===== src/Network/Node.antt =====
-- src/network/messages.rs and src/network/p2p.rs: `P2PMessage`, `P2PNode`, and the handling of a
-- connection. What is read from the stream, and whether the answer can be sent, are arguments.
pub mod Blocks
pub mod Sync
pub mod Connections
use goud_chain.Prelude.{
  ℕ, ◌%◌, leb, ◌==◌, ℤ, pos, negsuc, ◌+ℤ◌, ltb_ℤ, String, str_eq, List, [], ◌∷◌, ◌++◌, any, Bool,
  true, StrMap, lookup, insert, unwrap_or, if◌then◌else◌,
}
use goud_chain.Errors.{
  Result, ok, err, panic, ◌>>=◌, ◌>>◌, guard, unauthorized, invalid_request_body,
}
use goud_chain.Constants.{
  checkpoint_interval, reputation_reward_valid_block, reputation_penalty_invalid_block,
  min_reputation_threshold,
}
use goud_chain.Crypto.Externals.{Externals, Bytes}
use goud_chain.Domain.Types.{UserAccount, EncryptedCollection, Block, Json}
use goud_chain.Domain.Merkle.{calculate_merkle_root}
use goud_chain.Domain.Block.{calculate_hash}
use goud_chain.Domain.Blockchain.{Blockchain, get_latest_block, next_index}
use goud_chain.Domain.Blockchain.Replace.{replace_chain}
use goud_chain.Storage.RocksDb.{RocksDb}
use goud_chain.Storage.Codec.{Codec}
use goud_chain.Storage.BlockchainStore.{save_block, save_checkpoint}
use goud_chain.Network.Tracker.{RateLimitTracker, new_tracker, check_and_increment}

pub data P2PMessage : Type 0 where
  new_block : Block → P2PMessage
  request_chain : P2PMessage
  response_chain : List Block → P2PMessage
  peers : List String → P2PMessage
  new_account : UserAccount → P2PMessage
  new_collection : EncryptedCollection → P2PMessage
  -- node_id, signature
  hello : String → String → P2PMessage
  challenge : Bytes → P2PMessage
  challenge_response : String → P2PMessage

-- The sum of two `i32`.
unfoldable pub add_i32 : ℤ → ℤ → ℤ
add_i32 a b =
    let sum = a +ℤ b in
    if ltb_ℤ (pos 2147483647) sum
    then sum +ℤ negsuc 4294967295
    else if ltb_ℤ sum (negsuc 2147483647)
    then sum +ℤ pos 4294967296
    else sum

pub record P2PNode (Db : Type 0) : Type 0 where
  pub peers : List String
  pub blockchain : Blockchain
  pub blockchain_store : Db
  pub peer_reputation : StrMap ℤ
  pub rate_limiters : StrMap RateLimitTracker
  pub blacklist : List String

-- What comes in on a connection: the length prefix and the payload, or why they could not be read or
-- decoded, and the outcome of sending an answer.
pub record Incoming : Type 0 where
  pub length_prefix : Result ℕ
  pub payload : ℕ → Result Bytes
  pub decode : Bytes → Result P2PMessage
  pub send : P2PMessage → Result (Unit {0})

abbrev pub max_message_bytes : ℕ
max_message_bytes = 100000000

module _ (x : Externals) (j : Json) (r : RocksDb) (codec : Codec Block) where
  abbrev pub Node : Type 0
  Node = P2PNode r.Db

  -- `*r.entry(peer).or_insert(0) += amount`
  unfoldable pub add_reputation : String → ℤ → Node → Node
  add_reputation peer amount node =
      let old = unwrap_or (pos 0) (lookup peer node.peer_reputation) in
      record node { peer_reputation = insert peer (add_i32 old amount) node.peer_reputation }

  -- `if let Err(e) = store.save_…`: an error is logged.
  abbrev pub saved : Result r.Db → r.Db → r.Db
  saved (ok db') db = db'
  saved _ db = db

  -- The block is pushed, saved, and perhaps saved as a checkpoint; the peer is rewarded.
  unfoldable pub accept_block : String → Block → Node → Node
  unfolding add_reputation
  accept_block peer block node =
      let chain' = node.blockchain.chain ++ block ∷ [] in
      let db₁ = saved (save_block r codec node.blockchain_store block) node.blockchain_store in
      let db₂ =
        if block.index % checkpoint_interval == 0
        then saved (save_checkpoint r codec db₁ block.index block.hash) db₁
        else db₁ in
      let bc = node.blockchain in
      add_reputation peer reputation_reward_valid_block
        (record node { blockchain = record bc { chain = chain' }; blockchain_store = db₂ })

  -- The checks of the block's own hashes, after those of its place in the chain.
  unfoldable pub check_hashes : String → Block → Node → Result (Unit {0}) × Node
  check_hashes peer block node =
      let penalised = add_reputation peer reputation_penalty_invalid_block node in
      if str_eq block.hash (calculate_hash x.blake3_hex block)
      then elim (calculate_merkle_root x.blake3_hex block.encrypted_block_data
          block.blind_indexes) [
            | ok calculated_merkle ↦
                if str_eq block.merkle_root calculated_merkle
                then (ok tt, accept_block peer block node)
                else (ok tt, penalised)
            | err e ↦ (err e, node)
            | panic ↦ (panic, node)
          ]
      else (ok tt, penalised)

  -- The checks of the block's place after the latest one.
  unfoldable pub check_place : String → Block → Block → Node → Result (Unit {0}) × Node
  check_place peer latest block node =
      if any (λ b. str_eq b.hash block.hash) node.blockchain.chain
      then (ok tt, node)
      else if block.index == next_index latest.index
      then if str_eq block.previous_hash latest.hash
        then check_hashes peer block node
        else (ok tt, node)
      else (ok tt, node)

  -- `P2PMessage::NewBlock`
  unfoldable pub receive_block : String → Block → Node → Result (Unit {0}) × Node
  receive_block peer block node = elim (get_latest_block node.blockchain) [
    | err e ↦ (err e, node)
    | panic ↦ (panic, node)
    | ok latest ↦ check_place peer latest block node
  ]

  unfoldable pub handle_message : String → Incoming → P2PMessage → Node → Result (Unit {0}) × Node
  handle_message peer incoming (new_block block) node = receive_block peer block node
  handle_message peer incoming request_chain node =
      (incoming.send (response_chain node.blockchain.chain), node)
  handle_message peer incoming _ node = (ok tt, node)

  -- The frame: four bytes of length, a limit, and the payload.
  unfoldable pub read_message : Incoming → Result P2PMessage
  read_message incoming = do
    len ← incoming.length_prefix
    guard (leb len max_message_bytes) (invalid_request_body "Message too large")
    buffer ← incoming.payload len
    incoming.decode buffer

  abbrev pub dispatch : String → Incoming → Result P2PMessage → Node → Result (Unit {0}) × Node
  dispatch peer incoming (ok message) node = handle_message peer incoming message node
  dispatch peer incoming (err e) node = (err e, node)
  dispatch peer incoming panic node = (panic, node)

  -- `entry(peer).or_insert_with(RateLimitTracker::new)` and its `check_and_increment`, each with its
  -- reading of the clock
  unfoldable pub tracked : String → ℕ × ℕ → Node → Bool × RateLimitTracker
  unfolding check_and_increment
  tracked peer (made, now) node =
      check_and_increment now (unwrap_or (new_tracker made) (lookup peer node.rate_limiters))

  unfoldable pub handle_connection : String → ℕ × ℕ → Incoming → Node → Result (Unit {0}) × Node
  unfolding tracked read_message
  handle_connection peer now incoming node =
      if ltb_ℤ (unwrap_or (pos 0) (lookup peer node.peer_reputation)) min_reputation_threshold
      then (err (unauthorized "Peer reputation below threshold"), node)
      else let (allowed, tracker) = tracked peer now node in
        let counted = record node { rate_limiters = insert peer tracker node.rate_limiters } in
        if allowed
        then dispatch peer incoming (read_message incoming) counted
        else (err (unauthorized "Rate limit exceeded"), counted)

  -- A connection as the server takes it: a blacklisted peer is not handled.
  unfoldable pub accept_connection : String → ℕ × ℕ → Incoming → Node → Node
  accept_connection peer now incoming node =
      if any (λ b. str_eq b peer) node.blacklist
      then node
      else (handle_connection peer now incoming node).1

  abbrev pub rewarded : String → Result Bool × Blockchain → Node → Node
  rewarded peer (ok true, bc) node =
      add_reputation peer reputation_reward_valid_block (record node { blockchain = bc })
  rewarded peer (answer, bc) node = record node { blockchain = bc }

  -- A peer's answer in `request_chain_from_peers`; the clock is `now`. Other answers are dropped.
  unfoldable pub sync_response : (ℕ → ℤ) → String → P2PMessage → Node → Node
  sync_response now peer (response_chain chain) node =
      rewarded peer (replace_chain x j now node.blockchain chain) node
  sync_response now peer _ node = node

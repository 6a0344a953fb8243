-- ===== src/Network/Node/Blocks.antt =====
-- A block from the network (`P2PMessage::NewBlock`, src/network/p2p.rs).
use goud_chain.Prelude.{
  ℕ, ℤ, pos, String, str_eq, eq_iff, ◌≤ℤ◌, ◌+ℤ◌, ◌∙◌, Bool-cases, [], ◌∷◌, ◌++◌, length, get_last?,
  any, false, some, ◌≡◌, refl, arith, inl, inr, eq_refl, ◌==◌, ◌⊎◌, ◌≢◌,
}
use goud_chain.Errors.{ok, err, invalid_validator}
use goud_chain.Constants.{timestamp_tolerance_seconds}
use goud_chain.Config.{round_robin}
use goud_chain.Crypto.Externals.{Externals}
use goud_chain.Domain.Types.{Block, Json}
use goud_chain.Domain.Merkle.{calculate_merkle_root}
use goud_chain.Domain.Merkle.Tree.{calculate_merkle_root_total}
use goud_chain.Domain.Block.{calculate_hash, verify_data}
use goud_chain.Domain.Blockchain.{get_latest_block, next_index}
use goud_chain.Domain.Blockchain.Validate.{is_valid, check_block}
use goud_chain.Domain.Blockchain.Validate.Links.{check_chain-append, check_block-unauthorized}
use goud_chain.Storage.RocksDb.{RocksDb}
use goud_chain.Storage.Codec.{Codec}
use goud_chain.Network.Node.{
  P2PNode, add_reputation, accept_block, check_hashes, check_place, receive_block,
}

module _ (x : Externals) (j : Json) (r : RocksDb) (codec : Codec Block) (peer : String) where
  -- What the handler asks of a block before it pushes it.
  pub record IsAcceptable (node : P2PNode r.Db) (latest block : Block) : Type 0 where
    pub new : any (λ b. str_eq b.hash block.hash) node.blockchain.chain ≡ false
    pub sequential : block.index ≡ next_index latest.index
    pub linked : block.previous_hash ≡ latest.hash
    pub hashed : block.hash ≡ calculate_hash x.blake3_hex block
    pub rooted :
        calculate_merkle_root x.blake3_hex block.encrypted_block_data block.blind_indexes
        ≡ ok block.merkle_root

  receive_block-latest :
      (node : P2PNode r.Db) (latest block : Block)
      → get_last? node.blockchain.chain ≡ some latest
      → receive_block x j r codec peer block node ≡ check_place x j r codec peer latest block node
  unfolding receive_block get_latest_block
  receive_block-latest node latest block e = ground arith

  receive_block-accept :
      (node : P2PNode r.Db) (latest block : Block)
      → get_last? node.blockchain.chain ≡ some latest
      → IsAcceptable node latest block
      → receive_block x j r codec peer block node
        ≡ (ok tt, accept_block x j r codec peer block node)
  receive_block-accept node latest block e a = rw (receive_block-latest node latest block e) (
      unfold check_place check_hashes in
      ground (
        arith,
        a.new,
        a.sequential,
        a.rooted,
        (eq_iff block.previous_hash latest.hash).1 a.linked,
        (eq_iff block.hash (calculate_hash x.blake3_hex block)).1 a.hashed,
        eq_refl block.merkle_root,
      ))

  check_hashes-kept :
      (node : P2PNode r.Db) (block : Block)
      → ((calculate_merkle_root x.blake3_hex block.encrypted_block_data block.blind_indexes
            ≡ ok block.merkle_root)
          × (block.hash ≡ calculate_hash x.blake3_hex block))
        ⊎ ((check_hashes x j r codec peer block node).1.blockchain ≡ node.blockchain)
  unfolding check_hashes add_reputation
  check_hashes-kept node block =
      let (root, rooted) =
        calculate_merkle_root_total x.blake3_hex block.encrypted_block_data block.blind_indexes in
      ground (
        arith,
        rooted,
        eq_iff block.merkle_root root,
        eq_iff block.hash (calculate_hash x.blake3_hex block),
      )

  check_place-kept :
      (node : P2PNode r.Db) (latest block : Block)
      → IsAcceptable node latest block
        ⊎ ((check_place x j r codec peer latest block node).1.blockchain ≡ node.blockchain)
  unfolding check_place
  check_place-kept node latest block = elim (check_hashes-kept node block) [
    | inr kept ↦ inr (ground (arith, kept))
    | inl (rooted, hashed) ↦
        elim (Bool-cases (any (λ b. str_eq b.hash block.hash) node.blockchain.chain)) [
          | inl known ↦ inr (rw known)
          | inr new ↦ elim (Bool-cases (block.index == next_index latest.index)) [
            | inr gap ↦ inr (rw (new, gap))
            | inl sequential ↦ elim (Bool-cases (str_eq block.previous_hash latest.hash)) [
              | inr diverged ↦ inr (rw (new, sequential, diverged))
              | inl linked ↦ inl (record {
                new = new;
                sequential = ground (arith, sequential);
                linked = (eq_iff _ _).0 linked;
                hashed = hashed;
                rooted = rooted;
              })
            ]
          ]
        ]
  ]

  accept_block-blockchain :
      (node : P2PNode r.Db) (block : Block)
      → (accept_block x j r codec peer block node).blockchain
        ≡ (let bc = node.blockchain in record bc { chain = bc.chain ++ block ∷ [] })
  unfolding accept_block
  accept_block-blockchain node block = refl

  -- A block from a peer leaves the blockchain as it was, or it has passed every check of the handler (it
  -- is new, its index and previous hash follow the latest block, its hash and merkle root are those that
  -- the node computes) and stands at the end of the chain, where nothing else has changed.
  pub receive_block_chain :
      (node : P2PNode r.Db) (latest block : Block)
      → get_last? node.blockchain.chain ≡ some latest
      → ((receive_block x j r codec peer block node).1.blockchain ≡ node.blockchain)
        ⊎ (IsAcceptable node latest block
            × ((receive_block x j r codec peer block node).1.blockchain
                ≡ (let bc = node.blockchain in record bc { chain = bc.chain ++ block ∷ [] })))
  receive_block_chain node latest block e = elim (check_place-kept node latest block) [
    | inl a ↦
        inr
          (a, rw (receive_block-accept node latest block e a) (accept_block-blockchain node block))
    | inr kept ↦ inl (rw (receive_block-latest node latest block e) kept)
  ]

  -- An acceptable block goes through validation after the chain that it joins: the chain of the node is
  -- valid afterwards exactly as far as `is_valid`'s check of the new block says, at the new index.
  pub receive_block-is_valid :
      (node : P2PNode r.Db) (now : ℕ → ℤ) (latest block : Block)
      → is_valid x j now node.blockchain ≡ ok tt
      → get_last? node.blockchain.chain ≡ some latest
      → IsAcceptable node latest block
      → is_valid x j now (receive_block x j r codec peer block node).1.blockchain
        ≡ check_block x j node.blockchain.validator_config.validators now
            (length node.blockchain.chain)
            latest
            block
  unfolding is_valid
  receive_block-is_valid node now latest block valid e a = rw (
    receive_block-accept node latest block e a,
    accept_block-blockchain node block,
    check_chain-append x j node.blockchain.validator_config.validators now node.blockchain.chain
        latest block e,
    valid,
  )

  -- The handler does not ask whose turn it was: a block that passes every other check of `is_valid` and
  -- is acceptable is pushed whoever its validator is, and where that is not the one that round robin
  -- expects, the node's own chain fails validation with `InvalidValidator` from then on.
  pub receive_block_unauthorized :
      (node : P2PNode r.Db) (now : ℕ → ℤ) (latest block : Block) (expected : String)
      → is_valid x j now node.blockchain ≡ ok tt
      → get_last? node.blockchain.chain ≡ some latest
      → IsAcceptable node latest block
      → block.timestamp ≤ℤ now (length node.blockchain.chain) +ℤ pos timestamp_tolerance_seconds
      → latest.timestamp ≤ℤ block.timestamp
      → verify_data x j block ≡ ok tt
      → round_robin node.blockchain.validator_config.validators block.index ≡ ok expected
      → block.validator ≢ expected
      → is_valid x j now (receive_block x j r codec peer block node).1.blockchain
        ≡ err (invalid_validator (length node.blockchain.chain) expected block.validator)
  receive_block_unauthorized node now latest block expected valid e a future earlier v robin ne =
      receive_block-is_valid node now latest block valid e a
      ∙ check_block-unauthorized x j _ now (length node.blockchain.chain) latest block expected
          a.hashed a.linked future earlier a.rooted v robin ne

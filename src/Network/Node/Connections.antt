-- ===== src/Network/Node/Connections.antt =====
-- What a connection can do to the chain (`start_p2p_server` and `handle_connection`,
-- src/network/p2p.rs).
use goud_chain.Prelude.{
  ℕ, pos, ltb_ℤ, lookup, insert, StrMap, unwrap_or, String, str_eq, [], ◌∷◌, ◌++◌, get_last?, any,
  true, false, some, Bool-cases, inl, inr, ◌⊎◌, ◌≡◌, refl,
}
use goud_chain.Errors.{Result, ok, err, panic}
use goud_chain.Constants.{min_reputation_threshold}
use goud_chain.Crypto.Externals.{Externals}
use goud_chain.Domain.Types.{Block, Json}
use goud_chain.Domain.Blockchain.{Blockchain}
use goud_chain.Storage.RocksDb.{RocksDb}
use goud_chain.Storage.Codec.{Codec}
use goud_chain.Network.Tracker.{RateLimitTracker}
use goud_chain.Network.Node.{
  P2PMessage, new_block, request_chain, response_chain, peers, new_account, new_collection, hello,
  challenge, challenge_response, P2PNode, Incoming, handle_message, read_message, dispatch, tracked,
  handle_connection, accept_connection,
}
use goud_chain.Network.Node.Blocks.{IsAcceptable, receive_block_chain}

module _ (x : Externals) (j : Json) (r : RocksDb) (codec : Codec Block) (peer : String) where
  -- The chain is the old one, or that with one acceptable block more.
  IsExtension : P2PNode r.Db → Block → Blockchain → Type 0
  IsExtension node latest bc =
      (bc ≡ node.blockchain)
      ⊎ ((block : Block) × IsAcceptable x j r codec peer node latest block
          × (bc ≡ (let old = node.blockchain in record old { chain = old.chain ++ block ∷ [] })))

  -- The peer passed the checks that come before its message is read.
  pub record IsAdmitted (now : ℕ × ℕ) (node : P2PNode r.Db) : Type 0 where
    pub not_blacklisted : any (λ b. str_eq b peer) node.blacklist ≡ false
    pub trusted :
        ltb_ℤ (unwrap_or (pos 0) (lookup peer node.peer_reputation)) min_reputation_threshold
        ≡ false
    pub within_limit : (tracked x j r codec peer now node).0 ≡ true

  handle_message-IsExtension :
      (incoming : Incoming) (message : P2PMessage) (node : P2PNode r.Db) (latest : Block)
      → get_last? node.blockchain.chain ≡ some latest
      → IsExtension node latest (handle_message x j r codec peer incoming message node).1.blockchain
  unfolding handle_message IsExtension
  handle_message-IsExtension incoming (new_block block) node latest e =
      elim (receive_block_chain x j r codec peer node latest block e) [
        | inl kept ↦ inl kept
        | inr (a, pushed) ↦ inr (block, a, pushed)
      ]
  handle_message-IsExtension incoming request_chain node latest e = inl refl
  handle_message-IsExtension incoming (response_chain c) node latest e = inl refl
  handle_message-IsExtension incoming (peers ps) node latest e = inl refl
  handle_message-IsExtension incoming (new_account a) node latest e = inl refl
  handle_message-IsExtension incoming (new_collection c) node latest e = inl refl
  handle_message-IsExtension incoming (hello i s) node latest e = inl refl
  handle_message-IsExtension incoming (challenge b) node latest e = inl refl
  handle_message-IsExtension incoming (challenge_response s) node latest e = inl refl

  dispatch-IsExtension :
      (incoming : Incoming) (message : Result P2PMessage) (node : P2PNode r.Db) (latest : Block)
      → get_last? node.blockchain.chain ≡ some latest
      → IsExtension node latest (dispatch x j r codec peer incoming message node).1.blockchain
  unfolding IsExtension
  dispatch-IsExtension incoming (ok message) node latest e =
      handle_message-IsExtension incoming message node latest e
  dispatch-IsExtension incoming (err why) node latest e = inl refl
  dispatch-IsExtension incoming panic node latest e = inl refl

  -- The count of the peer's messages is no part of the chain.
  counted-IsExtension :
      (node : P2PNode r.Db) (limiters : StrMap RateLimitTracker) (latest : Block) (bc : Blockchain)
      → IsExtension (record node { rate_limiters = limiters }) latest bc
      → IsExtension node latest bc
  unfolding IsExtension
  counted-IsExtension node limiters latest bc (inl kept) = inl kept
  counted-IsExtension node limiters latest bc (inr (block, a, pushed)) = inr (
    block,
    record {
      new = a.new;
      sequential = a.sequential;
      linked = a.linked;
      hashed = a.hashed;
      rooted = a.rooted;
    },
    pushed,
  )

  -- Whatever a peer sends, a connection leaves the blockchain as it was; or the peer is not blacklisted,
  -- its reputation is not below the threshold and it is within its rate limit, and the chain has one block
  -- more, which passed every check of the handler of new blocks.
  pub accept_connection_chain :
      (now : ℕ × ℕ) (incoming : Incoming) (node : P2PNode r.Db) (latest : Block)
      → get_last? node.blockchain.chain ≡ some latest
      → ((accept_connection x j r codec peer now incoming node).blockchain ≡ node.blockchain)
        ⊎ (IsAdmitted now node
            × (block : Block) × IsAcceptable x j r codec peer node latest block
            × ((accept_connection x j r codec peer now incoming node).blockchain
                ≡ (let bc = node.blockchain in record bc { chain = bc.chain ++ block ∷ [] })))
  unfolding accept_connection handle_connection IsExtension
  accept_connection_chain now incoming node latest e =
      elim (Bool-cases (any (λ b. str_eq b peer) node.blacklist)) [
        | inl listed ↦ inl (rw listed refl)
        | inr free ↦
            elim (Bool-cases (
              ltb_ℤ (unwrap_or (pos 0) (lookup peer node.peer_reputation))
                min_reputation_threshold)) [
                  | inl low ↦ inl (rw (free, low) refl)
                  | inr high ↦ elim (Bool-cases (tracked x j r codec peer now node).0) [
                    | inr over ↦ inl (rw (free, high, over) refl)
                    | inl allowed ↦
                        let counts =
                          insert peer (tracked x j r codec peer now node).1 node.rate_limiters in
                        let counted = record node { rate_limiters = counts } in
                        let message = read_message x j r codec incoming in
                        let extended : IsExtension node latest
                            (accept_connection x j r codec peer now incoming node).blockchain =
                          rw (free, high, allowed)
                            (counted-IsExtension node counts latest _
                              (dispatch-IsExtension incoming message counted latest e)) in
                        elim extended [
                          | inl kept ↦ inl kept
                          | inr (block, a, pushed) ↦ inr (
                            record {
                              not_blacklisted = free;
                              trusted = high;
                              within_limit = allowed;
                            },
                            block,
                            a,
                            pushed,
                          )
                        ]
                  ]
                ]
      ]

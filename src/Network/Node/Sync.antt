-- ===== src/Network/Node/Sync.antt =====
-- The answers of peers in `request_chain_from_peers` (src/network/p2p.rs), in any order.
use goud_chain.Prelude.{
  ℕ, ◌≤◌, ℤ, String, List, [], ◌∷◌, length, Bool, true, false, ◌≡◌, ◌≢◌, refl, sym, arith, inl, inr,
  ◌⊎◌,
}
use goud_chain.Errors.{Result, ok, err, panic}
use goud_chain.Crypto.Externals.{Externals}
use goud_chain.Domain.Types.{Block, Json}
use goud_chain.Domain.Blockchain.{Blockchain}
use goud_chain.Domain.Blockchain.Validate.{is_valid}
use goud_chain.Domain.Blockchain.Replace.{replace_chain}
use goud_chain.Domain.Blockchain.Replace.Safety.{replace_chain_accepted, replace_chain_rejected}
use goud_chain.Storage.RocksDb.{RocksDb}
use goud_chain.Storage.Codec.{Codec}
use goud_chain.Network.Node.{
  P2PNode, P2PMessage, response_chain, add_reputation, rewarded, sync_response,
}

-- An answer, with the clock that its validation reads.
pub record Response : Type 0 where
  pub clock : ℕ → ℤ
  pub peer : String
  pub message : P2PMessage

answer-cases : (answer : Result Bool) → (answer ≡ ok true) ⊎ (answer ≢ ok true)
answer-cases (ok true) = inl refl
answer-cases (ok false) = inr (λ e. cc)
answer-cases (err e') = inr (λ e. cc)
answer-cases panic = inr (λ e. cc)

module _ (x : Externals) (j : Json) (r : RocksDb) (codec : Codec Block) where
  -- The tasks take the blockchain's lock one after the other.
  unfoldable pub sync_all : List Response → P2PNode r.Db → P2PNode r.Db
  sync_all [] node = node
  sync_all (a ∷ rest) node = sync_all rest (sync_response x j r codec a.clock a.peer a.message node)

  -- A chain that is no shorter, and is the old one or has been found valid.
  pub record IsProgress (old new : Blockchain) : Type 0 where
    pub no_shorter : length old.chain ≤ length new.chain
    pub same_or_valid : (old ≡ new) ⊎ ((now : ℕ → ℤ) × (is_valid x j now new ≡ ok tt))

  replace_chain-IsProgress :
      (now : ℕ → ℤ) (bc : Blockchain) (chain : List Block)
      → IsProgress bc (replace_chain x j now bc chain).1
  replace_chain-IsProgress now bc chain = elim (answer-cases (replace_chain x j now bc chain).0) [
    | inl yes' ↦
        let (state, valid, longer, _) = replace_chain_accepted x j now bc chain yes' in
        record { no_shorter = rw state longer; same_or_valid = inr (now, valid) }
    | inr no' ↦
        let kept = replace_chain_rejected x j now bc chain no' in
        record { no_shorter = rw kept (omega arith); same_or_valid = inl (sym kept) }
  ]

  rewarded-blockchain :
      (peer : String) (answer : Result Bool × Blockchain) (node : P2PNode r.Db)
      → (rewarded x j r codec peer answer node).blockchain ≡ answer.1
  unfolding add_reputation
  rewarded-blockchain peer (ok true, bc) node = refl
  rewarded-blockchain peer (ok false, bc) node = refl
  rewarded-blockchain peer (err e, bc) node = refl
  rewarded-blockchain peer (panic, bc) node = refl

  IsProgress-refl : (bc : Blockchain) → IsProgress bc bc
  IsProgress-refl bc = record { no_shorter = omega arith; same_or_valid = inl refl }

  sync_response-IsProgress :
      (now : ℕ → ℤ) (peer : String) (m : P2PMessage) (node : P2PNode r.Db)
      → IsProgress node.blockchain (sync_response x j r codec now peer m node).blockchain
  unfolding sync_response
  sync_response-IsProgress now peer (response_chain chain) node =
      rw (rewarded-blockchain peer (replace_chain x j now node.blockchain chain) node)
        (replace_chain-IsProgress now node.blockchain chain)
  sync_response-IsProgress now peer _ node = IsProgress-refl node.blockchain

  IsProgress-trans : {a b c : Blockchain} → IsProgress a b → IsProgress b c → IsProgress a c
  IsProgress-trans p q = record {
    no_shorter = omega (arith, p.no_shorter, q.no_shorter);
    same_or_valid = elim q.same_or_valid [ inr v ↦ inr v | inl same ↦ rw same at p.same_or_valid ];
  }

  -- Whatever the peers answer to a request for their chains, in whatever order the answers are handled
  -- and whatever the clock reads, the node's chain never becomes shorter, and it is the chain that the
  -- node had or one that validation has accepted as a whole.
  pub sync_all-IsProgress :
      (responses : List Response) (node : P2PNode r.Db)
      → IsProgress node.blockchain (sync_all responses node).blockchain
  unfolding sync_all
  sync_all-IsProgress [] node = IsProgress-refl node.blockchain
  sync_all-IsProgress (a ∷ rest) node =
      IsProgress-trans (sync_response-IsProgress a.clock a.peer a.message node)
        (sync_all-IsProgress rest (sync_response x j r codec a.clock a.peer a.message node))

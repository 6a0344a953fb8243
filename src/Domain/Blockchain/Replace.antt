-- ===== src/Domain/Blockchain/Replace.antt =====
-- src/domain/blockchain.rs: `replace_chain`.
pub mod Safety
pub mod Choice
use goud_chain.Prelude.{
  ℕ, ltb, leb, ◌==◌, ℤ, String, str_eq, str_lt, List, [], ◌∷◌, length, get_last?, find?, Bool, true,
  false, ◌&&◌, Option, none, some, if◌then◌else◌,
}
use goud_chain.Errors.{Result, ok, err, panic, ◌>>=◌, or_panic}
use goud_chain.Config.{round_robin}
use goud_chain.Crypto.Externals.{Externals}
use goud_chain.Domain.Types.{Block, Json}
use goud_chain.Domain.Blockchain.{Blockchain}
use goud_chain.Domain.Blockchain.Validate.{is_valid}

-- The block of the last checkpoint, if the chain has it.
unfoldable pub checkpoint_block : Blockchain → Option Block
checkpoint_block bc = elim (get_last? bc.checkpoints) [
  | none ↦ none
  | some last_checkpoint_hash ↦ find? (λ b. str_eq b.hash last_checkpoint_hash) bc.chain
]

unfoldable pub blocked_by_checkpoint : Blockchain → List Block → Bool
unfolding checkpoint_block
blocked_by_checkpoint bc new_chain = elim (checkpoint_block bc) [
  | none ↦ false
  | some block ↦ leb (length new_chain) block.index
]

-- `zip` and `all`: the pairs end with the shorter chain.
unfoldable pub same_hashes : List Block → List Block → Bool
same_hashes (a ∷ as') (b ∷ bs) = if str_eq a.hash b.hash then same_hashes as' bs else false
same_hashes _ _ = true

-- The tie-breaking rules between the last blocks.
abbrev pub prefer : Bool → Bool → Bool → Bool
prefer true false smaller = false
prefer false true smaller = true
prefer _ _ smaller = smaller

-- Their last block wins by the validator, then by the smaller hash.
unfoldable pub break_tie : List String → Block → Block → Result Bool
break_tie validators our_last their_last = do
  expected_validator ← round_robin validators our_last.index
  let our_is_valid = str_eq our_last.validator expected_validator
  let their_is_valid = str_eq their_last.validator expected_validator
  ok (prefer our_is_valid their_is_valid (str_lt their_last.hash our_last.hash))

-- Two chains of one length, above 1.
unfoldable pub resolve_divergence : Blockchain → List Block → Result Bool
unfolding same_hashes break_tie
resolve_divergence bc new_chain = if same_hashes bc.chain new_chain then ok false else do
  our_last ← or_panic (get_last? bc.chain)
  their_last ← or_panic (get_last? new_chain)
  break_tie bc.validator_config.validators our_last their_last

unfoldable pub should_replace : Blockchain → List Block → Result Bool
unfolding resolve_divergence
should_replace bc new_chain =
    if ltb (length bc.chain) (length new_chain)
    then ok true
    else if length new_chain == length bc.chain && ltb 1 (length new_chain)
    then resolve_divergence bc new_chain
    else ok false

-- `temp_blockchain.is_valid()?` where the chain is to be replaced.
abbrev pub validated : Bool → Result (Unit {0}) → Result Bool
validated true valid = valid >>= λ _. ok true
validated false valid = ok false

module _ (x : Externals) (j : Json) (now : ℕ → ℤ) where
  -- The chain that is to be validated stands in a copy of the blockchain.
  unfoldable pub accepts : Blockchain → List Block → Result Bool
  unfolding blocked_by_checkpoint should_replace
  accepts bc new_chain = if blocked_by_checkpoint bc new_chain then ok false else do
    replace ← should_replace bc new_chain
    let temp_blockchain = record bc {
      chain = new_chain;
      pending_accounts_with_keys = [];
      pending_collections = [];
    }
    validated replace (is_valid x j now temp_blockchain)

  -- The assignment of the new chain, which only the path to `Ok(true)` reaches.
  abbrev pub assign : Result Bool → Blockchain → List Block → Result Bool × Blockchain
  assign (ok true) bc new_chain = (ok true, record bc { chain = new_chain })
  assign (ok false) bc new_chain = (ok false, bc)
  assign (err e) bc new_chain = (err e, bc)
  assign panic bc new_chain = (panic, bc)

  unfoldable pub replace_chain : Blockchain → List Block → Result Bool × Blockchain
  replace_chain bc new_chain = assign (accepts bc new_chain) bc new_chain

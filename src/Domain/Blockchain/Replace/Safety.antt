-- ===== src/Domain/Blockchain/Replace/Safety.antt =====
-- What `replace_chain` (src/domain/blockchain.rs) does to the state.
use goud_chain.Prelude.{
  ℕ, ◌≤◌, ◌<◌, ℤ, List, length, Bool, true, false, some, ◌≡◌, ◌≢◌, refl, sym, ◌∙◌, arith,
}
use goud_chain.Errors.{Result, ok, err, panic}
use goud_chain.Crypto.Externals.{Externals}
use goud_chain.Domain.Types.{Block, Json}
use goud_chain.Domain.Blockchain.{Blockchain}
use goud_chain.Domain.Blockchain.Validate.{is_valid}
use goud_chain.Domain.Blockchain.Replace.{
  checkpoint_block, blocked_by_checkpoint, should_replace, accepts, assign, replace_chain,
}

-- A chain that is shorter is never chosen.
length-should_replace :
    (bc : Blockchain) (new_chain : List Block)
    → should_replace bc new_chain ≡ ok true
    → length bc.chain ≤ length new_chain
unfolding should_replace
length-should_replace bc new_chain h = ground arith

unblocked-index-lt :
    (bc : Blockchain) (new_chain : List Block) (b : Block)
    → checkpoint_block bc ≡ some b
    → blocked_by_checkpoint bc new_chain ≡ false
    → b.index < length new_chain
unfolding blocked_by_checkpoint
unblocked-index-lt bc new_chain b e h = ground arith

module _ (x : Externals) (j : Json) (now : ℕ → ℤ) (bc : Blockchain) (new_chain : List Block) where
  -- What an accepted chain has passed.
  pub record IsAccepted : Type 0 where
    pub unblocked : blocked_by_checkpoint bc new_chain ≡ false
    pub chosen : should_replace bc new_chain ≡ ok true
    pub valid : is_valid x j now (record bc { chain = new_chain }) ≡ ok tt

  accepts-IsAccepted : accepts x j now bc new_chain ≡ ok true → IsAccepted
  unfolding accepts is_valid
  accepts-IsAccepted h = record {
    unblocked = ground arith;
    chosen = ground arith;
    valid = ground arith;
  }

  assign-answer : (answer : Result Bool) → (assign x j now answer bc new_chain).0 ≡ answer
  assign-answer (ok true) = refl
  assign-answer (ok false) = refl
  assign-answer (err e) = refl
  assign-answer panic = refl

  -- A call of `replace_chain` that answers `true` has put the new chain in place and nothing else: the new state is valid,
  -- its chain is no shorter, and it reaches past the index of the block of the last checkpoint.
  pub replace_chain_accepted :
      (replace_chain x j now bc new_chain).0 ≡ ok true
      → ((replace_chain x j now bc new_chain).1 ≡ record bc { chain = new_chain })
        × (is_valid x j now (replace_chain x j now bc new_chain).1 ≡ ok tt)
        × (length bc.chain ≤ length new_chain)
        × ((b : Block) → checkpoint_block bc ≡ some b → b.index < length new_chain)
  unfolding replace_chain
  replace_chain_accepted h =
      let accepted = sym (assign-answer (accepts x j now bc new_chain)) ∙ h in
      let a = accepts-IsAccepted accepted in
      (
        rw accepted refl,
        rw accepted a.valid,
        length-should_replace bc new_chain a.chosen,
        λ b e. unblocked-index-lt bc new_chain b e a.unblocked,
      )

  -- Any other answer leaves the state as it was.
  assign_rejected :
      (answer : Result Bool) → answer ≢ ok true → (assign x j now answer bc new_chain).1 ≡ bc
  assign_rejected (ok true) h = absurd (h refl)
  assign_rejected (ok false) h = refl
  assign_rejected (err e) h = refl
  assign_rejected panic h = refl

  pub replace_chain_rejected :
      (replace_chain x j now bc new_chain).0 ≢ ok true → (replace_chain x j now bc new_chain).1 ≡ bc
  unfolding replace_chain
  replace_chain_rejected h =
      let answer = accepts x j now bc new_chain in
      assign_rejected answer (λ e. h (assign-answer answer ∙ e))

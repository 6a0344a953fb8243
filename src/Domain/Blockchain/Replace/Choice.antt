-- ===== src/Domain/Blockchain/Replace/Choice.antt =====
-- Two nodes that offer each other chains of one length (`replace_chain`, src/domain/blockchain.rs).
use goud_chain.Prelude.{
  ℕ, ℤ, ◌<◌, ltb, ◌==◌, String, str_eq, str_lt, str_lt_flip, eq_iff, List, [], ◌∷◌, length,
  get_last?, Bool, true, false, not, some, ◌≡◌, ◌≢◌, refl, sym, ap, ◌∙◌, arith, ◌&&◌, if◌then◌else◌,
}
use goud_chain.Errors.{Result, ok}
use goud_chain.Config.{round_robin}
use goud_chain.Domain.Types.{Block, Json}
use goud_chain.Domain.Blockchain.{Blockchain}
use goud_chain.Domain.Blockchain.Replace.{
  same_hashes, prefer, should_replace, blocked_by_checkpoint, accepts, replace_chain,
}
use goud_chain.Domain.Blockchain.Validate.{is_valid}
use goud_chain.Crypto.Externals.{Externals}

same_hashes_comm : (as' bs : List Block) → same_hashes as' bs ≡ same_hashes bs as'
unfolding same_hashes
same_hashes_comm [] [] = refl
same_hashes_comm [] (b ∷ bs) = refl
same_hashes_comm (a ∷ as') [] = refl
same_hashes_comm (a ∷ as') (b ∷ bs) =
    ground (arith, same_hashes_comm as' bs, eq_iff a.hash b.hash, eq_iff b.hash a.hash)

if_same : (b : Bool) → (if b then false else false) ≡ false
if_same true = refl
if_same false = refl

tests_equal : (m n : ℕ) → m ≡ n → ltb m n ≡ false
tests_equal m n e = ground arith

tests_length : (m n : ℕ) → m ≡ n → 1 < m → (n == m && ltb 1 n) ≡ true
tests_length m n e h = ground arith

prefer_flip : (a b s : Bool) → prefer b a (not s) ≡ not (prefer a b s)
prefer_flip true true s = refl
prefer_flip true false s = refl
prefer_flip false true s = refl
prefer_flip false false s = refl

-- Chains of one length whose last hashes differ do not have the same hashes.
same_hashes-last :
    (as' bs : List Block) (a b : Block)
    → length as' ≡ length bs
    → get_last? as' ≡ some a
    → get_last? bs ≡ some b
    → a.hash ≢ b.hash
    → same_hashes as' bs ≡ false
unfolding same_hashes
same_hashes-last [] bs a b l la lb h = cc
same_hashes-last (a' ∷ as') [] a b l la lb h = absurd (omega arith)
same_hashes-last (a' ∷ []) (b' ∷ []) a b l la lb h = ground (arith, eq_iff a'.hash b'.hash)
same_hashes-last (a' ∷ []) (b' ∷ b'' ∷ bs) a b l la lb h = absurd (omega arith)
same_hashes-last (a' ∷ a'' ∷ as') (b' ∷ []) a b l la lb h = absurd (omega arith)
same_hashes-last (a' ∷ a'' ∷ as') (b' ∷ b'' ∷ bs) a b l la lb h =
    rw (same_hashes-last (a'' ∷ as') (b'' ∷ bs) a b (omega arith) la lb h)
      (if_same (str_eq a'.hash b'.hash))

-- The answer of the tie-breaking rules.
should_replace-prefer :
    (bc : Blockchain) (new_chain : List Block) (our_last their_last : Block) (expected : String)
    → length bc.chain ≡ length new_chain
    → 1 < length bc.chain
    → get_last? bc.chain ≡ some our_last
    → get_last? new_chain ≡ some their_last
    → same_hashes bc.chain new_chain ≡ false
    → round_robin bc.validator_config.validators our_last.index ≡ ok expected
    → should_replace bc new_chain
      ≡ ok (
          prefer
            (str_eq our_last.validator expected)
            (str_eq their_last.validator expected)
            (str_lt their_last.hash our_last.hash))
unfolding should_replace
should_replace-prefer bc new_chain our_last their_last expected l g lo lt s r =
    rw
      (
        tests_equal (length bc.chain) (length new_chain) l,
        tests_length (length bc.chain) (length new_chain) l g,
      )
      (rw (s, lo, lt, r))

-- The two decisions are opposite.
decisions_differ :
    (ours theirs : Blockchain) (our_last their_last : Block) (expected : String)
    → ours.validator_config.validators ≡ theirs.validator_config.validators
    → length ours.chain ≡ length theirs.chain
    → 1 < length ours.chain
    → get_last? ours.chain ≡ some our_last
    → get_last? theirs.chain ≡ some their_last
    → our_last.index ≡ their_last.index
    → our_last.hash ≢ their_last.hash
    → round_robin ours.validator_config.validators our_last.index ≡ ok expected
    → (answer : Bool) × (should_replace ours theirs.chain ≡ ok answer)
      × (should_replace theirs ours.chain ≡ ok (not answer))
decisions_differ ours theirs our_last their_last expected v l g lo lt i h r =
    let s = same_hashes-last ours.chain theirs.chain our_last their_last l lo lt h in
    let ours_valid = str_eq our_last.validator expected in
    let theirs_valid = str_eq their_last.validator expected in
    (
      prefer ours_valid theirs_valid (str_lt their_last.hash our_last.hash),
      should_replace-prefer ours theirs.chain our_last their_last expected l g lo lt s r,
      should_replace-prefer theirs ours.chain their_last our_last expected (sym l) (rw (← l) g) lt
            lo (same_hashes_comm theirs.chain ours.chain ∙ s) (rw (← v, ← i) r)
          ∙ ap ok (
              ap (prefer theirs_valid ours_valid)
                (str_lt_flip their_last.hash our_last.hash (λ e. h (sym e)))
              ∙ prefer_flip ours_valid theirs_valid (str_lt their_last.hash our_last.hash)),
    )

module _ (x : Externals) (j : Json) (now : ℕ → ℤ) where
  -- Nothing keeps a node from taking these blocks: they pass its checkpoints and its validation.
  pub record MayTake (bc : Blockchain) (new_chain : List Block) : Type 0 where
    pub unblocked : blocked_by_checkpoint bc new_chain ≡ false
    pub valid : is_valid x j now (record bc { chain = new_chain }) ≡ ok tt

  replace_chain-should_replace :
      (bc : Blockchain) (new_chain : List Block) (answer : Bool)
      → MayTake bc new_chain
      → should_replace bc new_chain ≡ ok answer
      → replace_chain x j now bc new_chain
        ≡ (ok answer, if answer then record bc { chain = new_chain } else bc)
  unfolding replace_chain accepts is_valid
  replace_chain-should_replace bc new_chain true may h = rw (may.unblocked, h, may.valid) refl
  replace_chain-should_replace bc new_chain false may h = rw (may.unblocked, h) refl

  agreed :
      (answer : Bool) (ours theirs : Blockchain) (p q : Result Bool × Blockchain)
      → p ≡ (ok answer, if answer then record ours { chain = theirs.chain } else ours)
      → q ≡ (ok (not answer), if not answer then record theirs { chain = ours.chain } else theirs)
      → p.1.chain ≡ q.1.chain
  agreed true ours theirs p q e f = rw (e, f) refl
  agreed false ours theirs p q e f = rw (e, f) refl

  -- Two nodes with the same validators hold chains of one length above 1, whose last blocks have the
  -- same index and different hashes; each chain passes the checkpoints and the validation of the other
  -- node, and a validator is due at that index. Each offers its chain to the other: exactly one of the
  -- two calls of `replace_chain` answers `true`, and afterwards both nodes hold the same chain.
  pub replace_chain_converges :
      (ours theirs : Blockchain) (our_last their_last : Block) (expected : String)
      → ours.validator_config.validators ≡ theirs.validator_config.validators
      → length ours.chain ≡ length theirs.chain
      → 1 < length ours.chain
      → get_last? ours.chain ≡ some our_last
      → get_last? theirs.chain ≡ some their_last
      → our_last.index ≡ their_last.index
      → our_last.hash ≢ their_last.hash
      → round_robin ours.validator_config.validators our_last.index ≡ ok expected
      → MayTake ours theirs.chain
      → MayTake theirs ours.chain
      → let here = replace_chain x j now ours theirs.chain in
        let there = replace_chain x j now theirs ours.chain in
        ((answer : Bool) × (here.0 ≡ ok answer) × (there.0 ≡ ok (not answer)))
        × (here.1.chain ≡ there.1.chain)
  replace_chain_converges ours theirs our_last their_last expected v l g lo lt i h r m n =
      let (answer, d, e) =
        decisions_differ ours theirs our_last their_last expected v l g lo lt i h r in
      let here = replace_chain-should_replace ours theirs.chain answer m d in
      let there = replace_chain-should_replace theirs ours.chain (not answer) n e in
      ((answer, ap (λ p. p.0) here, ap (λ p. p.0) there), agreed answer ours theirs _ _ here there)

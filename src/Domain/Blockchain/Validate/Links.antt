-- ===== src/Domain/Blockchain/Validate/Links.antt =====
-- `Blockchain::is_valid` (src/domain/blockchain.rs) decides a predicate on the chain.
use goud_chain.Prelude.{
  ℕ, suc, ◌+◌, ℤ, pos, ◌+ℤ◌, ◌≤ℤ◌, ltb_ℤ, String, eq_iff, eq_refl, str_eq, ◌≢◌, false, List, [],
  ◌∷◌, ◌++◌, length, get_last?, not, true, ◌≡◌, refl, inl, inr, ◌↔◌, arith,
}
use mathlib.Core.Option.{some, some-injective}
use goud_chain.Errors.{
  ◌>>◌, >>_unit, >>_assoc, invalid_timestamp, invalid_validator, ok, err, >>=-eq-ok, Result-cases,
}
use goud_chain.Constants.{timestamp_tolerance_seconds}
use goud_chain.Config.{round_robin}
use goud_chain.Crypto.Externals.{Externals}
use goud_chain.Domain.Types.{Block, Json}
use goud_chain.Domain.Merkle.{calculate_merkle_root}
use goud_chain.Domain.Merkle.Tree.{calculate_merkle_root_total}
use goud_chain.Domain.Block.{calculate_hash, verify_data}
use goud_chain.Domain.Blockchain.Validate.{check_block, check_from, check_chain}

not_ltb_ℤ : (a b : ℤ) → not (ltb_ℤ a b) ≡ true → b ≤ℤ a
not_ltb_ℤ a b h = ground arith

ge_ℤ_test : (a b : ℤ) → b ≤ℤ a → not (ltb_ℤ a b) ≡ true
ge_ℤ_test a b h = ground arith

str_ne : (s t : String) → s ≢ t → str_eq s t ≡ false
str_ne s t h = ground (arith, eq_iff s t)

module _ (x : Externals) (j : Json) (validators : List String) (now : ℕ → ℤ) where
  -- What links a block at index `i` to the one before it.
  pub record IsLinked (i : ℕ) (previous current : Block) : Type 0 where
    pub hashed : current.hash ≡ calculate_hash x.blake3_hex current
    pub linked : current.previous_hash ≡ previous.hash
    pub not_future : current.timestamp ≤ℤ now i +ℤ pos timestamp_tolerance_seconds
    pub not_earlier : previous.timestamp ≤ℤ current.timestamp
    pub rooted :
        calculate_merkle_root x.blake3_hex current.encrypted_block_data current.blind_indexes
        ≡ ok current.merkle_root
    pub verified : verify_data x j current ≡ ok tt
    pub assigned : round_robin validators current.index ≡ ok current.validator

  -- The root that validation computes is the block's.
  check_block-rooted :
      (i : ℕ) (previous current : Block)
      → check_block x j validators now i previous current ≡ ok tt
      → calculate_merkle_root x.blake3_hex current.encrypted_block_data current.blind_indexes
        ≡ ok current.merkle_root
  unfolding check_block
  check_block-rooted i previous current h =
      let (root, e) =
        calculate_merkle_root_total x.blake3_hex current.encrypted_block_data
          current.blind_indexes in
      ground (arith, e, eq_iff current.merkle_root root)

  check_block-assigned :
      (i : ℕ) (previous current : Block)
      → check_block x j validators now i previous current ≡ ok tt
      → round_robin validators current.index ≡ ok current.validator
  unfolding check_block
  check_block-assigned i previous current h =
      elim (Result-cases (round_robin validators current.index)) [
        | inl (v, e) ↦ ground (arith, eq_iff current.validator v)
        | inr failure ↦ ground arith
      ]

  check_block-IsLinked :
      (i : ℕ) (previous current : Block)
      → check_block x j validators now i previous current ≡ ok tt
      → IsLinked i previous current
  check_block-IsLinked i previous current h = record {
    hashed = (eq_iff _ _).0 (unfold check_block in ground arith);
    linked = (eq_iff _ _).0 (unfold check_block in ground arith);
    not_future =
        not_ltb_ℤ (now i +ℤ pos timestamp_tolerance_seconds) current.timestamp
          (unfold check_block in ground arith);
    not_earlier =
        not_ltb_ℤ current.timestamp previous.timestamp (unfold check_block in ground arith);
    rooted = check_block-rooted i previous current h;
    verified = unfold check_block in ground arith;
    assigned = check_block-assigned i previous current h;
  }

  pub IsLinked-check_block :
      (i : ℕ) (previous current : Block)
      → IsLinked i previous current
      → check_block x j validators now i previous current ≡ ok tt
  unfolding check_block
  IsLinked-check_block i previous current l = rw (
    (eq_iff _ _).1 l.hashed,
    (eq_iff _ _).1 l.linked,
    ge_ℤ_test (now i +ℤ pos timestamp_tolerance_seconds) current.timestamp l.not_future,
    ge_ℤ_test current.timestamp previous.timestamp l.not_earlier,
    l.rooted,
    eq_refl current.merkle_root,
    l.verified,
    l.assigned,
    eq_refl current.validator,
  )

  -- Every block of the rest is linked to the one before it.
  abbrev pub AreLinked : ℕ → Block → List Block → Type 0
  AreLinked i previous [] = Unit
  AreLinked i previous (current ∷ rest) =
      IsLinked i previous current × AreLinked (suc i) current rest

  -- The first block is not looked at.
  abbrev pub IsLinkedChain : List Block → Type 0
  IsLinkedChain [] = Unit
  IsLinkedChain (genesis ∷ rest) = AreLinked 1 genesis rest

  check_from-AreLinked :
      (i : ℕ) (previous : Block) (rest : List Block)
      → check_from x j validators now i previous rest ≡ ok tt
      → AreLinked i previous rest
  unfolding check_from
  check_from-AreLinked i previous [] h = tt
  check_from-AreLinked i previous (current ∷ rest) h =
      let (_, first, others) = >>=-eq-ok _ _ h in
      (
        check_block-IsLinked i previous current first,
        check_from-AreLinked (suc i) current rest others,
      )

  AreLinked-check_from :
      (i : ℕ) (previous : Block) (rest : List Block)
      → AreLinked i previous rest
      → check_from x j validators now i previous rest ≡ ok tt
  unfolding check_from
  AreLinked-check_from i previous [] h = refl
  AreLinked-check_from i previous (current ∷ rest) h =
      rw (IsLinked-check_block i previous current h.0)
        (AreLinked-check_from (suc i) current rest h.1)

  -- The loop of `is_valid` over a chain succeeds exactly if each block after the first is linked to the
  -- one before it: its hash and merkle root are those computed from it, it names the hash before it, its
  -- timestamp is neither before that one's nor too far ahead of the clock, its data is verified, and its
  -- validator is the one that round robin names.
  pub check_chain_iff :
      (chain : List Block) → (check_chain x j validators now chain ≡ ok tt) ↔ IsLinkedChain chain
  unfolding check_chain
  check_chain_iff [] = (λ _. tt, λ _. refl)
  check_chain_iff (genesis ∷ rest) =
      (check_from-AreLinked 1 genesis rest, AreLinked-check_from 1 genesis rest)

  -- A block that is earlier than the one before it, and otherwise stands in its place.
  pub check_block-earlier :
      (i : ℕ) (previous current : Block)
      → current.hash ≡ calculate_hash x.blake3_hex current
      → current.previous_hash ≡ previous.hash
      → current.timestamp ≤ℤ now i +ℤ pos timestamp_tolerance_seconds
      → ltb_ℤ current.timestamp previous.timestamp ≡ true
      → check_block x j validators now i previous current ≡ err (invalid_timestamp i)
  unfolding check_block
  check_block-earlier i previous current a b c d = rw (
    (eq_iff _ _).1 a,
    (eq_iff _ _).1 b,
    ge_ℤ_test (now i +ℤ pos timestamp_tolerance_seconds) current.timestamp c,
    d,
  )

  -- A block by another validator than the one whose turn it is, in its place otherwise.
  pub check_block-unauthorized :
      (i : ℕ) (previous current : Block) (expected : String)
      → current.hash ≡ calculate_hash x.blake3_hex current
      → current.previous_hash ≡ previous.hash
      → current.timestamp ≤ℤ now i +ℤ pos timestamp_tolerance_seconds
      → previous.timestamp ≤ℤ current.timestamp
      → calculate_merkle_root x.blake3_hex current.encrypted_block_data current.blind_indexes
        ≡ ok current.merkle_root
      → verify_data x j current ≡ ok tt
      → round_robin validators current.index ≡ ok expected
      → current.validator ≢ expected
      → check_block x j validators now i previous current
        ≡ err (invalid_validator i expected current.validator)
  unfolding check_block
  check_block-unauthorized i previous current expected a b c d m v robin ne = rw (
    (eq_iff _ _).1 a,
    (eq_iff _ _).1 b,
    ge_ℤ_test (now i +ℤ pos timestamp_tolerance_seconds) current.timestamp c,
    ge_ℤ_test current.timestamp previous.timestamp d,
    m,
    eq_refl current.merkle_root,
    v,
    robin,
    str_ne current.validator expected ne,
  )

  check_from-append :
      (i : ℕ) (previous : Block) (rest : List Block) (last new : Block)
      → get_last? (previous ∷ rest) ≡ some last
      → check_from x j validators now i previous (rest ++ new ∷ [])
        ≡ check_from x j validators now i previous rest
          >> check_block x j validators now (i + length rest) last new
  unfolding check_from
  check_from-append i previous [] last new e =
      let same : previous ≡ last = some-injective _ _ e in
      let at : i + 0 ≡ i = omega arith in
      rw (same, at) (>>_unit (check_block x j validators now i last new))
  check_from-append i previous (current ∷ rest) last new e =
      let at : i + suc (length rest) ≡ suc i + length rest = omega arith in
      rw (at, check_from-append (suc i) current rest last new e)
        (>>_assoc (check_block x j validators now i previous current) _ _)

  -- A chain with one more block is checked as before, and then the new block after the last one, at the
  -- index that is the old length.
  pub check_chain-append :
      (chain : List Block) (last new : Block)
      → get_last? chain ≡ some last
      → check_chain x j validators now (chain ++ new ∷ [])
        ≡ check_chain x j validators now chain
          >> check_block x j validators now (length chain) last new
  unfolding check_chain
  check_chain-append [] last new e = cc
  check_chain-append (genesis ∷ rest) last new e =
      let at : 1 + length rest ≡ suc (length rest) = omega arith in
      rw (← at) (check_from-append 1 genesis rest last new e)

  AreLinked-split :
      (i : ℕ) (p : Block) (rest : List Block) (previous current : Block) (ys : List Block)
      → AreLinked i p (rest ++ (previous ∷ current ∷ ys))
      → IsLinked (suc i + length rest) previous current
  AreLinked-split i p [] previous current ys h =
      let at : suc i + 0 ≡ suc i = omega arith in rw at h.1.0
  AreLinked-split i p (b ∷ bs) previous current ys h =
      let at : suc i + suc (length bs) ≡ suc (suc i) + length bs = omega arith in
      rw at (AreLinked-split (suc i) b bs previous current ys h.1)

  add_one : (n : ℕ) → suc (suc n) ≡ 2 + n
  add_one n = omega arith

  -- Each block in a valid chain, whatever its place, is linked to the one before it.
  pub IsLinkedChain-split :
      (xs : List Block) (previous current : Block) (ys : List Block)
      → IsLinkedChain (xs ++ (previous ∷ current ∷ ys))
      → IsLinked (suc (length xs)) previous current
  IsLinkedChain-split [] previous current ys h = h.0
  IsLinkedChain-split (genesis ∷ rest) previous current ys h =
      rw (add_one (length rest)) (AreLinked-split 1 genesis rest previous current ys h)

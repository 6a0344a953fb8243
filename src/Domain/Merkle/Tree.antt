-- ===== src/Domain/Merkle/Tree.antt =====
-- `Block::calculate_merkle_root` (src/domain/block.rs) always has a root, which over 2 ^ k leaves is
-- that of the perfect binary tree.
use goud_chain.Prelude.{
  ℕ, zero, suc, ◌+◌, ◌≤◌, ◌<◌, lt→ltb, String, ◌+++◌, str_eq, List, [], ◌∷◌, ◌++◌, length,
  length-append, Bool-cases, false, ◌≡◌, refl, ap, ap₂, inl, inr, arith, ◌∙◌, ◌&&◌,
}
use goud_chain.Errors.{ok}
use goud_chain.Constants.{empty_merkle_root}
use goud_chain.Domain.Merkle.{next_level, build_tree, leaves, is_empty, calculate_merkle_root}

-- The perfect binary trees of a height.
pub data Perfect : ℕ → Type 0 where
  leaf : String → Perfect zero
  node : {k : ℕ} → Perfect k → Perfect k → Perfect (suc k)

-- The leaves from left to right.
unfoldable pub frontier : {k : ℕ} → Perfect k → List String
frontier (leaf a) = a ∷ []
frontier (node l r) = frontier l ++ frontier r

-- As many turns of the loop as leaves.
unfoldable pub width : {k : ℕ} → Perfect k → ℕ
width (leaf a) = 1
width (node l r) = width l + width r

length-frontier : {k : ℕ} (t : Perfect k) → length (frontier t) ≡ width t
unfolding frontier width
length-frontier (leaf a) = refl
length-frontier (node l r) =
    length-append (frontier l) (frontier r) ∙ ap₂ ◌+◌ (length-frontier l) (length-frontier r)

module _ (h : String → String) where
  -- The hash of a tree: of both children's, one after the other.
  unfoldable pub digest : {k : ℕ} → Perfect k → String
  digest (leaf a) = a
  digest (node l r) = h (digest l +++ digest r)

  -- A level has half as many nodes as the one below it, rounded up.
  pub length-next_level_bounds :
      (hs : List String)
      → (length (next_level h hs) + length (next_level h hs) ≤ length hs + 1)
        × (length hs ≤ length (next_level h hs) + length (next_level h hs))
  unfolding next_level
  length-next_level_bounds [] = omega arith
  length-next_level_bounds (a ∷ []) = omega arith
  length-next_level_bounds (a ∷ b ∷ rest) = omega (arith, length-next_level_bounds rest)

  build_tree-step :
      (fuel : ℕ) (a b : String) (rest : List String)
      → build_tree h (suc fuel) (a ∷ b ∷ rest) ≡ build_tree h fuel (next_level h (a ∷ b ∷ rest))
  unfolding build_tree
  build_tree-step fuel a b rest = rw (lt→ltb 1 (length (a ∷ b ∷ rest)) (omega arith), build_tree)

  pub build_tree-singleton :
      (fuel : ℕ) (hs : List String)
      → 0 < length hs
      → length hs ≤ fuel
      → (r : String) × (build_tree h fuel hs ≡ r ∷ [])
  build_tree-singleton zero hs p q = absurd (omega arith)
  build_tree-singleton (suc fuel) [] p q = absurd (omega arith)
  build_tree-singleton (suc fuel) (a ∷ []) p q = (a, unfold build_tree in refl)
  build_tree-singleton (suc fuel) (a ∷ b ∷ rest) p q = rw (build_tree-step fuel a b rest) (
      build_tree-singleton fuel (next_level h (a ∷ b ∷ rest))
        (omega (arith, length-next_level_bounds (a ∷ b ∷ rest)))
        (omega (arith, length-next_level_bounds (a ∷ b ∷ rest))))

  next_level-append :
      (m : ℕ) (xs ys : List String)
      → length xs ≡ m + m
      → next_level h (xs ++ ys) ≡ next_level h xs ++ next_level h ys
  unfolding next_level
  next_level-append zero [] ys e = refl
  next_level-append (suc m) [] ys e = absurd (omega arith)
  next_level-append m (a ∷ []) ys e = absurd (omega arith)
  next_level-append zero (a ∷ b ∷ xs) ys e = absurd (omega arith)
  next_level-append (suc m) (a ∷ b ∷ xs) ys e =
      ap (λ l. h (a +++ b) ∷ l) (next_level-append m xs ys (omega arith))

  -- One turn of the loop, on the tree.
  collapse : {k : ℕ} → Perfect (suc k) → Perfect k
  collapse (node (leaf a) (leaf b)) = leaf (h (a +++ b))
  collapse (node (node l₁ l₂) (node r₁ r₂)) = node (collapse (node l₁ l₂)) (collapse (node r₁ r₂))

  digest-collapse : {k : ℕ} (t : Perfect (suc k)) → digest (collapse t) ≡ digest t
  unfolding digest collapse
  digest-collapse (node (leaf a) (leaf b)) = refl
  digest-collapse (node (node l₁ l₂) (node r₁ r₂)) =
      ap₂ (λ s t. h (s +++ t)) (digest-collapse (node l₁ l₂)) (digest-collapse (node r₁ r₂))

  width-node_bounds : {k : ℕ} (t : Perfect (suc k)) → (m : ℕ) × (width t ≡ m + m) × (1 < width t)
  unfolding width
  width-node_bounds (node (leaf a) (leaf b)) = (1, omega arith, omega arith)
  width-node_bounds (node (node l₁ l₂) (node r₁ r₂)) =
      let l = width-node_bounds (node l₁ l₂) in
      let r = width-node_bounds (node r₁ r₂) in
      (l.0 + r.0, omega (arith, l.1, r.1), omega (arith, l.2, r.2))

  next_level-frontier :
      {k : ℕ} (t : Perfect (suc k)) → next_level h (frontier t) ≡ frontier (collapse t)
  unfolding frontier collapse
  next_level-frontier (node (leaf a) (leaf b)) = unfold next_level in refl
  next_level-frontier (node (node l₁ l₂) (node r₁ r₂)) =
      let even = width-node_bounds (node l₁ l₂) in
      next_level-append even.0 (frontier (node l₁ l₂)) (frontier (node r₁ r₂))
        (length-frontier (node l₁ l₂) ∙ even.1)
      ∙ ap₂ ◌++◌ (next_level-frontier (node l₁ l₂)) (next_level-frontier (node r₁ r₂))

  build_tree-next :
      (fuel : ℕ) (hs : List String)
      → 1 < length hs
      → build_tree h (suc fuel) hs ≡ build_tree h fuel (next_level h hs)
  build_tree-next fuel [] p = absurd (omega arith)
  build_tree-next fuel (a ∷ []) p = absurd (omega arith)
  build_tree-next fuel (a ∷ b ∷ rest) p = build_tree-step fuel a b rest

  -- The loop over the leaves of a perfect tree ends with the tree's hash.
  pub build_tree-frontier :
      {k : ℕ} (t : Perfect k) (fuel : ℕ) → k ≤ fuel → build_tree h fuel (frontier t) ≡ digest t ∷ []
  unfolding frontier digest
  build_tree-frontier (leaf a) zero q = unfold build_tree in refl
  build_tree-frontier (leaf a) (suc fuel) q = unfold build_tree in refl
  build_tree-frontier (node l r) zero q = absurd (omega arith)
  build_tree-frontier (node l r) (suc fuel) q =
      build_tree-next fuel (frontier (node l r))
        (rw (length-frontier (node l r)) (width-node_bounds (node l r)).2)
      ∙ ap (build_tree h fuel) (next_level-frontier (node l r))
      ∙ build_tree-frontier (collapse (node l r)) fuel (omega arith)
      ∙ ap (λ d. d ∷ []) (digest-collapse (node l r))

  height-lt-width : {k : ℕ} (t : Perfect k) → k < width t
  unfolding width
  height-lt-width (leaf a) = omega arith
  height-lt-width (node l r) = omega (arith, height-lt-width l, height-lt-width r)

  -- The root of the loop's last level, where the block is not empty.
  calculate_merkle_root-build_tree :
      (d : String) (bs : List String) (r : String)
      → (str_eq d "" && is_empty bs) ≡ false
      → build_tree h (length (leaves h d bs)) (leaves h d bs) ≡ r ∷ []
      → calculate_merkle_root h d bs ≡ ok r
  unfolding calculate_merkle_root
  calculate_merkle_root-build_tree d bs r e p = rw (e, p)

  -- The root is always computed, whatever the hash function and the data: the loop is given enough
  -- turns, and it never ends with an empty level, so the `unwrap` of its result does not panic.
  pub calculate_merkle_root_total :
      (encrypted_data : String) (blind_indexes : List String)
      → (root : String) × (calculate_merkle_root h encrypted_data blind_indexes ≡ ok root)
  calculate_merkle_root_total d bs = elim (Bool-cases (str_eq d "" && is_empty bs)) [
    | inl e ↦ (empty_merkle_root, unfold calculate_merkle_root in rw e)
    | inr e ↦
        let top =
          build_tree-singleton (length (leaves h d bs)) (leaves h d bs)
            (unfold leaves in omega arith) (omega arith) in
        (top.0, calculate_merkle_root-build_tree d bs top.0 e top.1)
  ]

  -- Where the hashes of the data and of the blind indexes are the leaves of a perfect binary tree, the
  -- merkle root is that tree's hash, each inner node being the hash of its two children's hashes.
  -- The data and the blind indexes are not both empty.
  pub calculate_merkle_root-frontier :
      {k : ℕ} (t : Perfect k) (encrypted_data : String) (blind_indexes : List String)
      → (str_eq encrypted_data "" && is_empty blind_indexes) ≡ false
      → frontier t ≡ leaves h encrypted_data blind_indexes
      → calculate_merkle_root h encrypted_data blind_indexes ≡ ok (digest t)
  calculate_merkle_root-frontier t d bs e p = calculate_merkle_root-build_tree d bs (digest t) e (
      rw (← p, length-frontier t)
        (build_tree-frontier t (width t) (omega (arith, height-lt-width t))))

  -- An inner node passes for data: a block whose data is the text of two hashes, one after the other,
  -- has the merkle root of the block with the data and the blind index that were hashed. The text of the two hashes is not empty.
  pub calculate_merkle_root_collision :
      (encrypted_data blind_index : String)
      → str_eq (h encrypted_data +++ h blind_index) "" ≡ false
      → calculate_merkle_root h (h encrypted_data +++ h blind_index) []
        ≡ calculate_merkle_root h encrypted_data (blind_index ∷ [])
  unfolding calculate_merkle_root
  calculate_merkle_root_collision d i e = rw e (ground arith)

-- ===== src/Domain/Merkle.antt =====
-- src/domain/block.rs: `Block::calculate_merkle_root`.
pub mod Tree
use goud_chain.Prelude.{
  ℕ, zero, suc, ltb, String, ◌+++◌, str_eq, List, [], ◌∷◌, map, length, Bool, true, false, ◌&&◌,
  Option, none, some, if◌then◌else◌,
}
use goud_chain.Errors.{Result, ok, or_panic}
use goud_chain.Constants.{empty_merkle_root}

-- `vec.into_iter().next()`
abbrev pub first : List String → Option String
first [] = none
first (h ∷ hs) = some h

abbrev pub is_empty {ℓ} : {A : Type ℓ} → List A → Bool
is_empty [] = true
is_empty (x ∷ xs) = false

module _ (blake3_hex : String → String) where
  -- One turn of the outer loop: the chunks of two.
  unfoldable pub next_level : List String → List String
  next_level [] = []
  next_level (a ∷ []) = blake3_hex a ∷ []
  next_level (a ∷ b ∷ rest) = blake3_hex (a +++ b) ∷ next_level rest

  -- `while hashes.len() > 1`
  unfoldable pub build_tree : ℕ → List String → List String
  build_tree zero hashes = hashes
  build_tree (suc fuel) hashes = elim (ltb 1 (length hashes)) [
    | true ↦ build_tree fuel (next_level hashes)
    | false ↦ hashes
  ]

  unfoldable pub leaves : String → List String → List String
  leaves encrypted_data blind_indexes = blake3_hex encrypted_data ∷ map blake3_hex blind_indexes

  -- A level is shorter than the one below it, so as many turns as leaves are enough.
  unfoldable pub calculate_merkle_root : String → List String → Result String
  unfolding leaves build_tree next_level
  calculate_merkle_root encrypted_data blind_indexes =
      if str_eq encrypted_data "" && is_empty blind_indexes
      then ok empty_merkle_root
      else let hashes = leaves encrypted_data blind_indexes in
        or_panic (first (build_tree (length hashes) hashes))

-- ===== src/Tests/Keys.antt =====
-- The cache of derived keys.
use goud_chain.Prelude.{
  ℕ, ◌%◌, List, length, ◌++◌, inl, inr, arith, String, [], ◌∷◌, Option, true, false, ◌≡◌, refl, sym,
  ap, ◌∙◌,
}
use goud_chain.Crypto.Externals.{Externals, Bytes}
use goud_chain.Crypto.KeyCache.{CachedKeysWithTtl, KeyCache, no_stats}
use goud_chain.Crypto.KeyCache.Coherent.{IsCollisionFree, IsCoherent, none_is_some}
use goud_chain.Crypto.KeyCache.Runs.{KeyRequest, derived, answer, after_keys, answer-after_keys}
use goud_chain.Tests.Toy.{crates, to_unary, from_unary, zeros, empty_cache, lru}
use goud_chain.Tests.Laws.{lru_laws, from_unary-to_unary}

-- A digest of one byte: how many bytes there are, up to a multiple of 256.
abbrev hashes : Externals
hashes = record crates { sha256 = λ bytes. length bytes % 256 ∷ []; hex_encode = to_unary }

abbrev asked : List Bytes
asked = zeros 32 ∷ (zeros 32 ++ 1 ∷ []) ∷ []

same_digest : (m n : ℕ) → to_unary (m ∷ []) ≡ to_unary (n ∷ []) → m ≡ n
same_digest m n h =
    let digests : Path Bytes (m ∷ []) (n ∷ []) =
      sym (from_unary-to_unary (m ∷ [])) ∙ ap (from_unary 0) h ∙ from_unary-to_unary (n ∷ []) in
    cc

digest : (a b : Bytes) → a ≡ b → to_unary (length a % 256 ∷ []) ≡ to_unary (length b % 256 ∷ [])
digest a b e = ap (λ d. to_unary (length d % 256 ∷ [])) e

asked-IsCollisionFree : IsCollisionFree hashes asked
asked-IsCollisionFree a b (inl e) (inl f) h = e ∙ sym f
asked-IsCollisionFree a b (inl e) (inr (inl f)) h =
    let n = same_digest 32 33 (sym (digest a _ e) ∙ h ∙ digest b _ f) in absurd (omega arith)
asked-IsCollisionFree a b (inr (inl e)) (inl f) h =
    let n = same_digest 33 32 (sym (digest a _ e) ∙ h ∙ digest b _ f) in absurd (omega arith)
asked-IsCollisionFree a b (inr (inl e)) (inr (inl f)) h = e ∙ sym f
asked-IsCollisionFree a b (inl e) (inr (inr o)) h = elim o [ ]
asked-IsCollisionFree a b (inr (inl e)) (inr (inr o)) h = elim o [ ]
asked-IsCollisionFree a b (inr (inr o)) _ h = elim o [ ]

abbrev none_cached : KeyCache (String → Option CachedKeysWithTtl)
none_cached = record { cache = empty_cache; stats = no_stats }

none_cached-IsCoherent : IsCoherent hashes lru asked none_cached.cache
none_cached-IsCoherent j e h = absurd (none_is_some h)

abbrev request : Bytes → KeyRequest
request salt = record { for_encryption = true; api_key = zeros 32; salt = salt; now = 7 }

answer-after_keys_example :
    (answer hashes lru
      (record (request []) { for_encryption = false })
      (after_keys hashes lru (request [] ∷ request (1 ∷ []) ∷ []) none_cached)).0
    ≡ derived hashes (record (request []) { for_encryption = false })
answer-after_keys_example =
    answer-after_keys hashes lru lru_laws asked asked-IsCollisionFree
      (request [] ∷ request (1 ∷ []) ∷ []) (record (request []) { for_encryption = false })
      none_cached ((refl, inl refl), ((refl, inr (inl refl)), tt)) (refl, inl refl)
      none_cached-IsCoherent

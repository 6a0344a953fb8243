-- ===== src/Crypto/Hkdf/Length.antt =====
-- The number of bytes of a derived key (src/crypto/hkdf.rs).
use goud_chain.Prelude.{
  ℕ, zero, suc, ◌+◌, ◌*◌, ◌%◌, ◌≤◌, ◌<◌, ltb, not_ltb→le, [], ◌∷◌, ◌++◌, length, length-append,
  take, Bool-cases, inl, inr, ◌≡◌, refl, ap, arith,
}
use goud_chain.Crypto.Externals.{Externals, Bytes}
use goud_chain.Crypto.Hkdf.{
  expand_loop, hkdf_extract, hkdf_expand, iterate, hkdf_with_iterations, derive_encryption_key,
  derive_mac_key, hash_api_key,
}

length-take : (n : ℕ) (bytes : Bytes) → n ≤ length bytes → length (take n bytes) ≡ n
length-take zero bytes h = refl
length-take (suc n) [] h = omega arith
length-take (suc n) (b ∷ bytes) h = ap suc (length-take n bytes (omega arith))

module _ (x : Externals) (length-sha256 : (bytes : Bytes) → length (x.sha256 bytes) ≡ 32) where
  -- Enough rounds give enough bytes.
  le-expand_loop :
      (fuel : ℕ) (prk info : Bytes) (target : ℕ) (output t : Bytes) (counter : ℕ)
      → target ≤ length output + 32 * fuel
      → target ≤ length (expand_loop x fuel prk info target output t counter)
  unfolding expand_loop
  le-expand_loop zero prk info target output t counter h = omega arith
  le-expand_loop (suc fuel) prk info target output t counter h =
      let t' = x.sha256 (t ++ (prk ++ (info ++ counter ∷ []))) in
      elim (Bool-cases (ltb (length output) target)) [
        | inl e ↦ rw e (
            le-expand_loop fuel prk info target (output ++ t') t' ((counter + 1) % 256) (
              omega (
                arith,
                length-append output t',
                length-sha256 (t ++ (prk ++ (info ++ counter ∷ []))),
              )))
        | inr e ↦ rw e (not_ltb→le (length output) target e)
      ]

  length-hkdf_expand :
      (prk info : Bytes) (target : ℕ) → length (hkdf_expand x prk info target) ≡ target
  unfolding hkdf_expand
  length-hkdf_expand prk info target =
      length-take target (expand_loop x target prk info target [] [] 1)
        (le-expand_loop target prk info target [] [] 1 (omega arith))

  length-iterate : (n : ℕ) (salt info key : Bytes) → length (iterate x (suc n) salt info key) ≡ 32
  unfolding iterate
  length-iterate zero salt info key = length-hkdf_expand (hkdf_extract x salt key) info 32
  length-iterate (suc n) salt info key =
      length-iterate n salt info (hkdf_expand x (hkdf_extract x salt key) info 32)

  length-hkdf_with_iterations :
      (ikm salt info : Bytes) (iterations : ℕ)
      → 0 < iterations
      → length (hkdf_with_iterations x ikm salt info iterations) ≡ 32
  unfolding hkdf_with_iterations
  length-hkdf_with_iterations ikm salt info zero h = absurd (omega arith)
  length-hkdf_with_iterations ikm salt info (suc n) h = length-iterate n salt info ikm

  -- Where a digest has 32 bytes, the keys for encryption and for MACs, and the hash of an API key, have
  -- 32 bytes, whatever the API key and the salt: as many as AES-256 asks for.
  pub length-derive_key :
      (api_key salt : Bytes)
      → (length (derive_encryption_key x api_key salt) ≡ 32)
        × (length (derive_mac_key x api_key salt) ≡ 32)
        × (length (hash_api_key x api_key) ≡ 32)
  unfolding derive_encryption_key derive_mac_key hash_api_key
  length-derive_key api_key salt = (
    length-hkdf_with_iterations api_key salt _ _ (omega arith),
    length-hkdf_with_iterations api_key salt _ _ (omega arith),
    length-hkdf_with_iterations api_key _ _ _ (omega arith),
  )

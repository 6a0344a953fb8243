-- ===== src/Crypto/Mac.antt =====
-- src/crypto/mac.rs, and `constant_time_compare_bytes` of src/crypto/hkdf.rs.
use Prim.Native.Nat.{bit_xor}
use goud_chain.Prelude.{
  ℕ, zero, suc, ◌==◌, ltb, String, [], ◌∷◌, ◌++◌, map, length, Bool, true, false, ◌&&◌, ==_refl,
  ◌≡◌, refl, if◌then◌else◌,
}
use goud_chain.Errors.{Result, ◌>>=◌, map_err, guard, invalid_signature}
use goud_chain.Crypto.Externals.{Externals, Bytes}

-- The bytes of two slices of one length, compared one by one. How long it takes is not modelled.
abbrev pub bytes_eq : Bytes → Bytes → Bool
bytes_eq [] [] = true
bytes_eq (a ∷ as') (b ∷ bs) = a == b && bytes_eq as' bs
bytes_eq _ _ = false

unfoldable pub constant_time_compare_bytes : Bytes → Bytes → Bool
constant_time_compare_bytes a b = if length a == length b then bytes_eq a b else false

-- `resize(size, 0)`
abbrev pub resize : ℕ → Bytes → Bytes
resize zero bytes = []
resize (suc size) [] = 0 ∷ resize size []
resize (suc size) (b ∷ bytes) = b ∷ resize size bytes

abbrev pub pad_with : ℕ → Bytes → Bytes
pad_with pad padded_key = map (λ b. bit_xor b pad) padded_key

module _ (x : Externals) where
  unfoldable pub hmac : Bytes → Bytes → Bytes
  hmac key message =
      let short_key = if ltb 64 (length key) then x.sha256 key else key in
      let padded_key = resize 64 short_key in
      let inner_hash = x.sha256 (pad_with 0x36 padded_key ++ message) in
      x.sha256 (pad_with 0x5c padded_key ++ inner_hash)

  unfoldable pub compute_mac : Bytes → Bytes → String
  compute_mac key message = x.hex_encode (hmac key message)

  unfoldable pub verify_mac : Bytes → Bytes → String → Result (Unit {0})
  verify_mac key message expected_mac_hex = do
    let computed_mac = hmac key message
    expected_mac ← map_err (λ _. invalid_signature) (x.hex_decode expected_mac_hex)
    guard (constant_time_compare_bytes computed_mac expected_mac) invalid_signature

bytes_eq_refl : (bytes : Bytes) → bytes_eq bytes bytes ≡ true
bytes_eq_refl [] = refl
bytes_eq_refl (b ∷ bytes) = rw (==_refl b) (bytes_eq_refl bytes)

pub constant_time_compare_bytes_refl :
    (bytes : Bytes) → constant_time_compare_bytes bytes bytes ≡ true
unfolding constant_time_compare_bytes
constant_time_compare_bytes_refl bytes = rw (==_refl (length bytes)) (bytes_eq_refl bytes)

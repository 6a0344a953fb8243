-- ===== src/Storage/Bytes.antt =====
-- The byte forms that Rust gives to `u32`, `u64` and `i64`, and their round trips.
use mathlib.Core.List.{reverse, reverse-reverse}
use native.Mathlib.Nat.{pow-suc}
use goud_chain.Prelude.{
  ℕ, zero, suc, ◌+◌, ◌-◌, ◌*◌, ◌/◌, ◌%◌, ◌^◌, ◌<◌, ltb, ◌==◌, ==_refl, ℤ, pos, negsuc, ◌<ℤ◌, ◌≤ℤ◌,
  leb_ℤ, ◌-ℤ◌, ◌&&◌, [], ◌∷◌, length, Option, none, some, ◌≡◌, refl, ap, arith, if◌then◌else◌,
}
use goud_chain.Crypto.Externals.{Bytes}

-- `to_le_bytes` of a word of `w` bytes.
unfoldable pub to_le_bytes : ℕ → ℕ → Bytes
to_le_bytes zero n = []
to_le_bytes (suc w) n = (n % 256) ∷ to_le_bytes w (n / 256)

unfoldable pub of_le_bytes : Bytes → ℕ
of_le_bytes [] = 0
of_le_bytes (b ∷ bs) = b + 256 * of_le_bytes bs

pub length-to_le_bytes : (w n : ℕ) → length (to_le_bytes w n) ≡ w
unfolding to_le_bytes
length-to_le_bytes zero n = refl
length-to_le_bytes (suc w) n = ap suc (length-to_le_bytes w (n / 256))

pub of_le_bytes-to_le_bytes : (w n : ℕ) → n < 256 ^ w → of_le_bytes (to_le_bytes w n) ≡ n
unfolding to_le_bytes of_le_bytes
of_le_bytes-to_le_bytes zero n h = omega arith
of_le_bytes-to_le_bytes (suc w) n h =
    let bound : n < 256 ^ w * 256 = rw pow-suc at h in
    omega (arith, of_le_bytes-to_le_bytes w (n / 256) (omega arith))

-- `copy_from_slice` into an array of `w` bytes, which panics at another length, and `from_le_bytes`.
unfoldable pub from_le_bytes : ℕ → Bytes → Option ℕ
from_le_bytes w bytes = if length bytes == w then some (of_le_bytes bytes) else none

pub from_le_bytes-to_le_bytes : (w n : ℕ) → n < 256 ^ w → from_le_bytes w (to_le_bytes w n) ≡ some n
unfolding from_le_bytes
from_le_bytes-to_le_bytes w n h =
    rw (length-to_le_bytes w n, ==_refl w, of_le_bytes-to_le_bytes w n h)

-- The two's complement of an `i64`, of an integer out of range the one it wraps to.
unfoldable pub i64_bits : ℤ → ℕ
i64_bits (pos n) = n % 2 ^ 64
i64_bits (negsuc n) = 2 ^ 64 - 1 - n % 2 ^ 64

unfoldable pub i64_of_bits : ℕ → ℤ
i64_of_bits n = if ltb n (2 ^ 63) then pos n else negsuc (2 ^ 64 - 1 - n)

-- What `i64` arithmetic leaves of an integer.
unfoldable pub wrap_i64 : ℤ → ℤ
wrap_i64 z = i64_of_bits (i64_bits z)

-- The range of `i64`.
abbrev pub IsI64 : ℤ → Type 0
IsI64 z = (negsuc 9223372036854775807 ≤ℤ z) × (z <ℤ pos 9223372036854775808)

pub i64_of_bits-i64_bits : (z : ℤ) → IsI64 z → i64_of_bits (i64_bits z) ≡ z
unfolding i64_of_bits i64_bits
i64_of_bits-i64_bits (pos n) h = ground arith
i64_of_bits-i64_bits (negsuc n) h = ground arith

-- Of a difference of an `i64` and a clock, wrapping leaves alone what is small and nothing else becomes
-- small.
pub wrap_i64_small :
    (now timestamp : ℤ)
    → IsI64 timestamp
    → pos 0 ≤ℤ now
    → now <ℤ pos 4611686018427387904
    → (leb_ℤ (wrap_i64 (now -ℤ timestamp)) (pos 300)
        && leb_ℤ (negsuc 299) (wrap_i64 (now -ℤ timestamp)))
      ≡ (leb_ℤ (now -ℤ timestamp) (pos 300) && leb_ℤ (negsuc 299) (now -ℤ timestamp))
unfolding wrap_i64 i64_of_bits i64_bits ◌-ℤ◌
wrap_i64_small (pos n) (pos t) i l h = ground arith
wrap_i64_small (pos n) (negsuc t) i l h = ground arith
wrap_i64_small (negsuc n) t i l h = ground arith

-- `i64::to_be_bytes` and `to_le_bytes`, and the way back from eight bytes.
unfoldable pub i64_to_le_bytes : ℤ → Bytes
i64_to_le_bytes z = to_le_bytes 8 (i64_bits z)

unfoldable pub i64_from_le_bytes : Bytes → Option ℤ
i64_from_le_bytes bytes = elim (from_le_bytes 8 bytes) [
  | none ↦ none
  | some n ↦ some (i64_of_bits n)
]

unfoldable pub i64_to_be_bytes : ℤ → Bytes
i64_to_be_bytes z = reverse (i64_to_le_bytes z)

unfoldable pub i64_from_be_bytes : Bytes → Option ℤ
i64_from_be_bytes bytes = i64_from_le_bytes (reverse bytes)

i64_bits-lt : (z : ℤ) → i64_bits z < 256 ^ 8
unfolding i64_bits
i64_bits-lt (pos n) = omega arith
i64_bits-lt (negsuc n) = omega arith

pub i64_from_le_bytes-to_le_bytes :
    (z : ℤ) → IsI64 z → i64_from_le_bytes (i64_to_le_bytes z) ≡ some z
unfolding i64_from_le_bytes i64_to_le_bytes
i64_from_le_bytes-to_le_bytes z h =
    rw (from_le_bytes-to_le_bytes 8 (i64_bits z) (i64_bits-lt z), i64_from_le_bytes)
      (ap some (i64_of_bits-i64_bits z h))

pub i64_from_be_bytes-to_be_bytes :
    (z : ℤ) → IsI64 z → i64_from_be_bytes (i64_to_be_bytes z) ≡ some z
unfolding i64_from_be_bytes i64_to_be_bytes
i64_from_be_bytes-to_be_bytes z h = rw reverse-reverse (i64_from_le_bytes-to_le_bytes z h)

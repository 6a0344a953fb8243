-- ===== src/Prelude/Text.antt =====
-- Texts: equality, Rust's order, and the decimal form that `format!` gives to integers.
use Prim.Native.Nat.{ℕ, zero, suc, ◌/◌, ◌%◌, Ordering}
use Prim.Native.String.{String, compare}
use Prim.Native.String.{◌++◌ as append}
use mathlib.Core.Bool.{Bool, true, false}
use goud_chain.Prelude.Tests.{ltb}
use goud_chain.Prelude.Int.{ℤ, pos, negsuc}

infixr 66 ◌+++◌
abbrev pub ◌+++◌ : String → String → String
s +++ t = append s t

-- `s < t` on `String`
abbrev pub str_lt : String → String → Bool
str_lt s t = elim (compare s t) [ Ordering.lt ↦ true | _ ↦ false ]

abbrev pub digit : ℕ → String
digit zero = "0"
digit (suc zero) = "1"
digit (suc (suc zero)) = "2"
digit (suc (suc (suc zero))) = "3"
digit (suc (suc (suc (suc zero)))) = "4"
digit (suc (suc (suc (suc (suc zero))))) = "5"
digit (suc (suc (suc (suc (suc (suc zero)))))) = "6"
digit (suc (suc (suc (suc (suc (suc (suc zero))))))) = "7"
digit (suc (suc (suc (suc (suc (suc (suc (suc zero)))))))) = "8"
digit _ = "9"

-- A number below 10 ^ fuel; a `u64` has 20 digits at most.
unfoldable pub digits : ℕ → ℕ → String
digits zero n = ""
digits (suc fuel) n = elim (ltb n 10) [
  | true ↦ digit n
  | false ↦ digits fuel (n / 10) +++ digit (n % 10)
]

unfoldable pub show : ℕ → String
unfolding digits
show n = digits 20 n

unfoldable pub show_ℤ : ℤ → String
unfolding show
show_ℤ (pos n) = show n
show_ℤ (negsuc n) = "-" +++ show (suc n)

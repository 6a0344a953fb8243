-- ===== src/Prelude/TextKeys.antt =====
-- Texts that differ, by the test.
use Prim.Native.Nat.{ℕ}
use Prim.Native.Char.{code}
use Prim.Native.String.{String, [], ◌∷◌}
use mathlib.Core.Path.{◌≡◌, ap}
use mathlib.Core.Logic.{◌≢◌, inl, inr}
use mathlib.Core.Bool.{false}
use text.Mathlib.Text.{◌==◌ as str_eq}
use text.Mathlib.TextEquality.{eq_iff}
use goud_chain.Prelude.Tests.{Bool-cases}

pub str_eq_ne : (s t : String) → s ≢ t → str_eq s t ≡ false
str_eq_ne s t ne = elim (Bool-cases (str_eq s t)) [
  | inl h ↦ absurd (ne ((eq_iff s t).0 h))
  | inr h ↦ h
]

abbrev pub first_code : String → ℕ
first_code [] = 0
first_code (c ∷ s) = code c

pub str_eq-first_code : (s t : String) → first_code s ≢ first_code t → str_eq s t ≡ false
str_eq-first_code s t ne = str_eq_ne s t (λ e. ne (ap first_code e))

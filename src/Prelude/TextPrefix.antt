-- ===== src/Prelude/TextPrefix.antt =====
-- In the order of texts those that start with a prefix stand together.
use Prim.Native.Nat.{ℕ, Ordering, compare as compare_ℕ}
use Prim.Native.Char.{Char, code}
use Prim.Native.String.append
use Prim.Native.String.compare
use Prim.Native.String.{String, [], ◌∷◌, compare, then}
use mathlib.Core.Path.{◌≡◌, refl, sym, ap, ap₂, ◌∙◌}
use mathlib.Core.Logic.{◌⊎◌, inl, inr}
use mathlib.Core.Bool.{Bool, true, false}
use native.Mathlib.Omega.{arith}
use text.Mathlib.TextBridge.{IsPrefix}
use text.Mathlib.TextEquality.{starts_with_iff, Char-path}
use text.Mathlib.TextLemmas.{cons-append}
use text.Mathlib.Text.{starts_with}
use goud_chain.Prelude.Text.{str_lt, ◌+++◌}

is_less : Ordering → Bool
is_less Ordering.lt = true
is_less _ = false

compare_ℕ-cases :
    (m n : ℕ) → (compare_ℕ m n ≡ Ordering.lt) ⊎ ((m ≡ n) ⊎ (compare_ℕ m n ≡ Ordering.gt))
compare_ℕ-cases m n = ground arith

compare_ℕ_same : (m n : ℕ) → m ≡ n → compare_ℕ m n ≡ Ordering.eq
compare_ℕ_same m n h = ground arith

str_lt-cons :
    (d c : Char) (j p : String)
    → str_lt (d ∷ j) (c ∷ p) ≡ is_less (then (compare_ℕ (code d) (code c)) (compare j p))
unfolding is_less
str_lt-cons d c j p = ap is_less (compare.cons-cons d c j p)

-- A text that is not less than the prefix and less than one that starts with it starts with it.
between-IsPrefix : (p j u : String) → str_lt j p ≡ false → str_lt j (p +++ u) ≡ true → IsPrefix p j
unfolding is_less
between-IsPrefix [] j u low high = (j, append.nil j)
between-IsPrefix (c ∷ p) [] u low high =
    let less : str_lt [] (c ∷ p) ≡ true = ap is_less (compare.nil-cons c p) in cc
between-IsPrefix (c ∷ p) (d ∷ j) u low high =
    let low' : is_less (then (compare_ℕ (code d) (code c)) (compare j p)) ≡ false =
      sym (str_lt-cons d c j p) ∙ low in
    let high' : is_less (then (compare_ℕ (code d) (code c)) (compare j (p +++ u))) ≡ true =
      sym (str_lt-cons d c j (p +++ u)) ∙ sym (ap (str_lt (d ∷ j)) (cons-append c p u)) ∙ high in
    elim (compare_ℕ-cases (code d) (code c)) [
      | inl e ↦ let wrong : true ≡ false = rw e at low' in cc
      | inr (inl e) ↦
          let same = compare_ℕ_same (code d) (code c) e in
          let low2 : str_lt j p ≡ false = rw same at low' in
          let high2 : str_lt j (p +++ u) ≡ true = rw same at high' in
          let (t, found) = between-IsPrefix p j u low2 high2 in
          (t, cons-append c p t ∙ ap₂ ◌∷◌ (sym (Char-path d c e)) found)
      | inr (inr e) ↦ let wrong : false ≡ true = rw e at high' in cc
    ]

pub starts_with-between :
    (p j k : String)
    → str_lt j p ≡ false
    → str_lt j k ≡ true
    → starts_with k p ≡ true
    → starts_with j p ≡ true
starts_with-between p j k low high h =
    let (u, e) = (starts_with_iff k p).0 h in
    (starts_with_iff j p).1 (between-IsPrefix p j u low (rw e high))

-- No text that starts with a prefix is less than it.
pub str_lt-append : (p u : String) → str_lt (p +++ u) p ≡ false
unfolding is_less
str_lt-append [] [] = ap (λ s. str_lt s []) (append.nil []) ∙ ap is_less compare.nil-nil
str_lt-append [] (c ∷ u) =
    ap (λ s. str_lt s []) (append.nil (c ∷ u)) ∙ ap is_less (compare.cons-nil c u)
str_lt-append (c ∷ p) u =
    let same = compare_ℕ_same (code c) (code c) refl in
    let step : is_less (then (compare_ℕ (code c) (code c)) (compare (p +++ u) p)) ≡ false =
      rw same (str_lt-append p u) in
    ap (λ s. str_lt s (c ∷ p)) (cons-append c p u) ∙ str_lt-cons c c (p +++ u) p ∙ step

pub starts_with-append : (p u : String) → starts_with (p +++ u) p ≡ true
starts_with-append p u = (starts_with_iff (p +++ u) p).1 (u, refl)

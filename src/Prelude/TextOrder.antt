-- ===== src/Prelude/TextOrder.antt =====
-- Rust's order on texts is total and asymmetric.
use Prim.Native.Nat.{ℕ, Ordering, compare as compare_ℕ}
use Prim.Native.Char.{Char, code}
use goud_chain.Prelude.Tests.{ltb, ◌==◌, if◌then◌else◌}
use Prim.Native.String.compare
use Prim.Native.String.{String, [], ◌∷◌, compare, then as or_by}
use mathlib.Core.Path.{◌≡◌, refl, sym, ap, ap₂, ◌∙◌}
use mathlib.Core.Logic.{◌≢◌}
use mathlib.Core.Bool.{Bool, true, false, not}
use native.Mathlib.Omega.{arith}
use text.Mathlib.TextEquality.{path_by_compare}
use goud_chain.Prelude.Text.{str_lt}

abbrev flip : Ordering → Ordering
flip Ordering.lt = Ordering.gt
flip Ordering.eq = Ordering.eq
flip Ordering.gt = Ordering.lt

flip-then : (o p : Ordering) → flip (or_by o p) ≡ or_by (flip o) (flip p)
flip-then Ordering.lt p = refl
flip-then Ordering.eq p = refl
flip-then Ordering.gt p = refl

compare_ℕ-flip : (m n : ℕ) → compare_ℕ n m ≡ flip (compare_ℕ m n)
compare_ℕ-flip m n = ground arith

compare-flip : (s t : String) → compare t s ≡ flip (compare s t)
compare-flip [] [] = ap flip (sym compare.nil-nil)
compare-flip [] (d ∷ t) = compare.cons-nil d t ∙ ap flip (sym (compare.nil-cons d t))
compare-flip (c ∷ s) [] = compare.nil-cons c s ∙ ap flip (sym (compare.cons-nil c s))
compare-flip (c ∷ s) (d ∷ t) =
    compare.cons-cons d c t s
    ∙ ap₂ or_by (compare_ℕ-flip (code c) (code d)) (compare-flip s t)
    ∙ sym (flip-then (compare_ℕ (code c) (code d)) (compare s t))
    ∙ ap flip (sym (compare.cons-cons c d s t))

is_less : Ordering → Bool
is_less Ordering.lt = true
is_less _ = false

less_flip : (o : Ordering) → o ≢ Ordering.eq → is_less (flip o) ≡ not (is_less o)
unfolding is_less
less_flip Ordering.lt h = refl
less_flip Ordering.eq h = absurd (h refl)
less_flip Ordering.gt h = refl

-- Of two different texts exactly one is less than the other.
pub str_lt_flip : (s t : String) → s ≢ t → str_lt t s ≡ not (str_lt s t)
unfolding is_less
str_lt_flip s t h =
    ap is_less (compare-flip s t) ∙ less_flip (compare s t) (λ e. h (path_by_compare s t e))

not_both_less : (o : Ordering) → is_less o ≡ true → is_less (flip o) ≡ false
unfolding is_less
not_both_less Ordering.lt h = refl
not_both_less Ordering.eq h = refl
not_both_less Ordering.gt h = cc

pub str_lt_asym : (s t : String) → str_lt s t ≡ true → str_lt t s ≡ false
unfolding is_less
str_lt_asym s t h = ap is_less (compare-flip s t) ∙ not_both_less (compare s t) h

str_lt-cons :
    (c d : Char) (s t : String)
    → str_lt (c ∷ s) (d ∷ t)
      ≡ (if ltb (code c) (code d) then true else if code c == code d then str_lt s t else false)
unfolding is_less or_by
str_lt-cons c d s t = ap is_less (compare.cons-cons c d s t) ∙ ground arith

str_lt-nil : (s : String) → str_lt s [] ≡ false
unfolding is_less
str_lt-nil [] = ap is_less compare.nil-nil
str_lt-nil (c ∷ s) = ap is_less (compare.cons-nil c s)

step_trans :
    (a b c : ℕ) (x y z : Bool)
    → (x ≡ false → y ≡ false → z ≡ false)
    → (if ltb a b then true else if a == b then x else false) ≡ false
    → (if ltb b c then true else if b == c then y else false) ≡ false
    → (if ltb a c then true else if a == c then z else false) ≡ false
step_trans a b c x y z next h k = ground arith

-- What is not less than a text that is not less than a third is not less than the third.
pub str_lt_trans_false :
    (s t u : String) → str_lt s t ≡ false → str_lt t u ≡ false → str_lt s u ≡ false
unfolding is_less
str_lt_trans_false s t [] h k = str_lt-nil s
str_lt_trans_false s [] (e ∷ u) h k =
    let less : str_lt [] (e ∷ u) ≡ true = ap is_less (compare.nil-cons e u) in cc
str_lt_trans_false [] (d ∷ t) (e ∷ u) h k =
    let less : str_lt [] (d ∷ t) ≡ true = ap is_less (compare.nil-cons d t) in cc
str_lt_trans_false (c ∷ s) (d ∷ t) (e ∷ u) h k =
    str_lt-cons c e s u
    ∙ step_trans (code c) (code d) (code e) (str_lt s t) (str_lt t u) (str_lt s u)
        (str_lt_trans_false s t u) (sym (str_lt-cons c d s t) ∙ h) (sym (str_lt-cons d e t u) ∙ k)

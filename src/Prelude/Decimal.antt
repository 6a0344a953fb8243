-- ===== src/Prelude/Decimal.antt =====
-- The decimal form of a number below 10 ^ 20 is read back.
use Prim.Native.Nat.{ℕ, zero, suc, ◌+◌, ◌-◌, ◌*◌, ◌/◌, ◌%◌, ◌^◌, ◌<◌}
use Prim.Native.Char.{code}
use Prim.Native.String.append
use Prim.Native.String.{String, [], ◌∷◌}
use mathlib.Core.Path.{◌≡◌, refl, sym, ap, ◌∙◌}
use mathlib.Core.Logic.{inl, inr}
use native.Mathlib.Nat.{pow-suc}
use native.Mathlib.Omega.{arith}
use text.Mathlib.TextLemmas.{cons-append}
use goud_chain.Prelude.Tests.{ltb, Bool-cases, ltb→lt}
use goud_chain.Prelude.Text.{◌+++◌, digit, digits, show}

-- The number that a text stands for, after the digits that have been read.
read_from : ℕ → String → ℕ
read_from n [] = n
read_from n (c ∷ s) = read_from (n * 10 + (code c - 48)) s

read_from-append : (n : ℕ) (s t : String) → read_from n (s +++ t) ≡ read_from (read_from n s) t
unfolding read_from
read_from-append n [] t = ap (read_from n) (append.nil t)
read_from-append n (c ∷ s) t =
    ap (read_from n) (cons-append c s t) ∙ read_from-append (n * 10 + (code c - 48)) s t

read_from-digit : (n d : ℕ) → d < 10 → read_from n (digit d) ≡ n * 10 + d
unfolding read_from
read_from-digit n zero h = refl
read_from-digit n (suc zero) h = refl
read_from-digit n (suc (suc zero)) h = refl
read_from-digit n (suc (suc (suc zero))) h = refl
read_from-digit n (suc (suc (suc (suc zero)))) h = refl
read_from-digit n (suc (suc (suc (suc (suc zero))))) h = refl
read_from-digit n (suc (suc (suc (suc (suc (suc zero)))))) h = refl
read_from-digit n (suc (suc (suc (suc (suc (suc (suc zero))))))) h = refl
read_from-digit n (suc (suc (suc (suc (suc (suc (suc (suc zero)))))))) h = refl
read_from-digit n (suc (suc (suc (suc (suc (suc (suc (suc (suc zero))))))))) h = refl
read_from-digit n (suc (suc (suc (suc (suc (suc (suc (suc (suc (suc d)))))))))) h = omega arith

read_from-digits : (fuel n : ℕ) → n < 10 ^ fuel → read_from 0 (digits fuel n) ≡ n
unfolding read_from digits
read_from-digits zero n h = omega arith
read_from-digits (suc fuel) n h = elim (Bool-cases (ltb n 10)) [
  | inl t ↦ rw (t, digits) (read_from-digit 0 n (ltb→lt n 10 t) ∙ omega arith)
  | inr t ↦
      let bound : n < 10 ^ fuel * 10 = rw pow-suc at h in
      rw
        (
          t,
          digits,
          read_from-append 0 (digits fuel (n / 10)) (digit (n % 10)),
          read_from-digits fuel (n / 10) (omega arith),
        )
        (read_from-digit (n / 10) (n % 10) (omega arith) ∙ omega arith)
]

pub show_injective : (m n : ℕ) → m < 2 ^ 64 → n < 2 ^ 64 → show m ≡ show n → m ≡ n
unfolding show
show_injective m n h k e =
    sym (read_from-digits 20 m (omega arith))
    ∙ ap (read_from 0) e
    ∙ read_from-digits 20 n (omega arith)

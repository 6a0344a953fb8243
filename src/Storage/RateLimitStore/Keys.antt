-- ===== src/Storage/RateLimitStore/Keys.antt =====
-- The keys of src/storage/rate_limit_store.rs differ: by their first letters, and among the bans by what
-- follows the prefix.
use text.Mathlib.TextLemmas.{cons-append, append_cancel_left, append_cancel_right}
use goud_chain.Prelude.{
  ℤ, ◌+++◌, show_ℤ, String, str_eq, eq_iff, str_eq_ne, first_code, str_eq-first_code, false, ◌≡◌,
  ap, arith,
}
use goud_chain.Storage.RateLimitStore.{window_key, count_key, violations_key, ban_key, ip_ban_key}

first_code-ban_key : (k : String) → first_code (ban_key k) ≡ 98
first_code-ban_key k = ap first_code (cons-append "b" "ans:" k)

first_code-violations_key : (k : String) → first_code (violations_key k) ≡ 118
first_code-violations_key k = ap first_code (cons-append "v" "iolations:" k)

first_code-ip_ban_key : (k : String) → first_code (ip_ban_key k) ≡ 105
first_code-ip_ban_key k = ap first_code (cons-append "i" "p_bans:" k)

first_code-count_key : (k : String) (start : ℤ) → first_code (count_key k start) ≡ 114
first_code-count_key k start = ap first_code (cons-append "r" "atelimit:" (window_key k start))

pub violations_key-ne-ban_key : (j k : String) → str_eq (violations_key j) (ban_key k) ≡ false
violations_key-ne-ban_key j k =
    str_eq-first_code _ _ (λ e. omega (arith, e, first_code-ban_key k, first_code-violations_key j))

pub ban_key-ne-violations_key : (j k : String) → str_eq (ban_key j) (violations_key k) ≡ false
ban_key-ne-violations_key j k =
    str_eq-first_code _ _ (λ e. omega (arith, e, first_code-ban_key j, first_code-violations_key k))

pub ip_ban_key-ne-ban_key : (j k : String) → str_eq (ip_ban_key j) (ban_key k) ≡ false
ip_ban_key-ne-ban_key j k =
    str_eq-first_code _ _ (λ e. omega (arith, e, first_code-ban_key k, first_code-ip_ban_key j))

pub ip_ban_key-ne-violations_key : (j k : String) → str_eq (ip_ban_key j) (violations_key k) ≡ false
ip_ban_key-ne-violations_key j k =
    str_eq-first_code _ _
      (λ e. omega (arith, e, first_code-violations_key k, first_code-ip_ban_key j))

pub count_key-ne-ban_key :
    (j : String) (start : ℤ) (k : String) → str_eq (count_key j start) (ban_key k) ≡ false
count_key-ne-ban_key j start k =
    str_eq-first_code _ _
      (λ e. omega (arith, e, first_code-ban_key k, first_code-count_key j start))

pub ban_key-ne : (j k : String) → str_eq j k ≡ false → str_eq (ban_key j) (ban_key k) ≡ false
ban_key-ne j k h =
    str_eq_ne (ban_key j) (ban_key k)
      λ e. absurd (ground (arith, eq_iff j k, append_cancel_left "bans:" j k e))

-- In one window, the keys of the counts of different API keys.
pub window_key-ne :
    (j k : String) (start : ℤ)
    → str_eq j k ≡ false
    → str_eq (window_key j start) (window_key k start) ≡ false
window_key-ne j k start h =
    str_eq_ne (window_key j start) (window_key k start)
      λ e. absurd (ground (arith, eq_iff j k, append_cancel_right j k (":" +++ show_ℤ start) e))

pub count_key-ne :
    (j k : String) (start : ℤ)
    → str_eq j k ≡ false
    → str_eq (count_key j start) (count_key k start) ≡ false
count_key-ne j k start h =
    let apart = window_key-ne j k start h in
    str_eq_ne (count_key j start) (count_key k start) λ e. absurd (
      ground (
        arith,
        eq_iff (window_key j start) (window_key k start),
        append_cancel_left "ratelimit:" (window_key j start) (window_key k start) e,
      ))

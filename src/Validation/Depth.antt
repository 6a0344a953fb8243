-- ===== src/Validation/Depth.antt =====
-- The depth that src/types/validation.rs allows.
use goud_chain.Prelude.{
  ℕ, suc, ◌+◌, ltb, leb, String, Bool-cases, if◌then◌else◌, inl, inr, ◌≡◌, refl, sym, ap, ap₂, ◌∙◌,
  arith, ◌⊎◌, ◌≤◌, ◌<◌,
}
use goud_chain.Errors.{Result, ok, err, ◌>>◌, Fallible, json_too_deep}
use goud_chain.Validation.{
  max_json_depth, Value, primitive, array, object, Items, no_items, item, Members, no_members,
  member, check_json_depth, check_items, check_members, validate_json_structure,
}

abbrev larger : ℕ → ℕ → ℕ
larger a b = if ltb a b then b else a

-- The containers around the innermost value.
unfoldable mutual
  pub depth : Value → ℕ
  depth primitive = 0
  depth (array items) = depth_items items
  depth (object members) = depth_members members

  pub depth_items : Items → ℕ
  depth_items no_items = 0
  depth_items (item v rest) = larger (suc (depth v)) (depth_items rest)

  pub depth_members : Members → ℕ
  depth_members no_members = 0
  depth_members (member k v rest) = larger (suc (depth v)) (depth_members rest)

abbrev pub verdict : ℕ → Result (Unit {0})
verdict n = if leb n max_json_depth then ok tt else err (json_too_deep max_json_depth)

verdict_allowed : (n : ℕ) → n ≤ 10 → verdict n ≡ ok tt
verdict_allowed n h = ground arith

verdict_too_deep : (n : ℕ) → 10 < n → verdict n ≡ err (json_too_deep max_json_depth)
verdict_too_deep n h = ground arith

larger-cases : (a b : ℕ) → ((larger a b ≡ a) × (b ≤ a)) ⊎ ((larger a b ≡ b) × (a < b))
larger-cases a b = ground arith

depth-cases : (n : ℕ) → (n ≤ 10) ⊎ (10 < n)
depth-cases n = ground arith

verdict_both :
    (d m n : ℕ) → (verdict (suc d + m) >> verdict (d + n)) ≡ verdict (d + larger (suc m) n)
verdict_both d m n = elim (depth-cases (suc d + m)) [
  | inl v ↦ elim (depth-cases (d + n)) [
    | inl w ↦
        let both : d + larger (suc m) n ≤ 10 = bounded (larger-cases (suc m) n) v w in
        rw
          (
            verdict_allowed (suc d + m) v,
            verdict_allowed (d + n) w,
            verdict_allowed (d + larger (suc m) n) both,
          )
          refl
    | inr w ↦
        let more : 10 < d + larger (suc m) n = deeper (larger-cases (suc m) n) w in
        rw
          (
            verdict_allowed (suc d + m) v,
            verdict_too_deep (d + n) w,
            verdict_too_deep (d + larger (suc m) n) more,
          )
          refl
  ]
  | inr v ↦
      let more : 10 < d + larger (suc m) n = deep (larger-cases (suc m) n) v in
      rw (verdict_too_deep (suc d + m) v, verdict_too_deep (d + larger (suc m) n) more) refl
]
  where
    bounded :
        {l : ℕ}
        → ((l ≡ suc m) × (n ≤ suc m)) ⊎ ((l ≡ n) × (suc m < n))
        → suc d + m ≤ 10
        → d + n ≤ 10
        → d + l ≤ 10
    bounded (inl (e, _)) v w = omega (arith, e, v, w)
    bounded (inr (e, _)) v w = omega (arith, e, v, w)

    deeper :
        {l : ℕ} → ((l ≡ suc m) × (n ≤ suc m)) ⊎ ((l ≡ n) × (suc m < n)) → 10 < d + n → 10 < d + l
    deeper (inl (e, f)) w = omega (arith, e, f, w)
    deeper (inr (e, f)) w = omega (arith, e, f, w)

    deep :
        {l : ℕ}
        → ((l ≡ suc m) × (n ≤ suc m)) ⊎ ((l ≡ n) × (suc m < n))
        → 10 < suc d + m
        → 10 < d + l
    deep (inl (e, f)) v = omega (arith, e, f, v)
    deep (inr (e, f)) v = omega (arith, e, f, v)

-- A container: the test of its own depth and the loop over what it holds.
verdict_within :
    (d n : ℕ) (rest : Result (Unit {0}))
    → (d ≤ 10 → rest ≡ verdict (d + n))
    → (if ltb max_json_depth d then err (json_too_deep max_json_depth) else rest) ≡ verdict (d + n)
verdict_within d n rest h = elim (Bool-cases (ltb max_json_depth d)) [
  | inl e ↦ rw (e, verdict_too_deep (d + n) (ground arith)) refl
  | inr e ↦ rw e (h (ground arith))
]

mutual
  unfolding check_json_depth depth

  pub check_json_depth-depth : (v : Value) (d : ℕ) → check_json_depth v d ≡ verdict (d + depth v)
  check_json_depth-depth primitive d =
      verdict_within d 0 (ok tt) (λ h. sym (verdict_allowed (d + 0) (omega arith)))
  check_json_depth-depth (array items) d =
      verdict_within d (depth_items items) (check_items items (suc d)) (check_items-depth items d)
  check_json_depth-depth (object members) d =
      verdict_within d (depth_members members) (check_members members (suc d))
        (check_members-depth members d)

  check_items-depth :
      (items : Items) (d : ℕ) → d ≤ 10 → check_items items (suc d) ≡ verdict (d + depth_items items)
  check_items-depth no_items d h = sym (verdict_allowed (d + 0) (omega arith))
  check_items-depth (item v rest) d h =
      ap₂ ◌>>◌ (check_json_depth-depth v (suc d)) (check_items-depth rest d h)
      ∙ verdict_both d (depth v) (depth_items rest)

  check_members-depth :
      (members : Members) (d : ℕ)
      → d ≤ 10
      → check_members members (suc d) ≡ verdict (d + depth_members members)
  check_members-depth no_members d h = sym (verdict_allowed (d + 0) (omega arith))
  check_members-depth (member k v rest) d h =
      ap₂ ◌>>◌ (check_json_depth-depth v (suc d)) (check_members-depth rest d h)
      ∙ verdict_both d (depth v) (depth_members rest)

-- A text that parses as JSON is allowed just where the depth of its value is at most 10, a value that
-- is no container having depth 0 and a container one more than the deepest value it holds, or 0
-- when it is empty; all other values give the error `json_too_deep`, with no other error
-- and no panic.
pub validate_json_structure-depth :
    (from_str : String → Fallible Value) (data_text : String) (v : Value)
    → from_str data_text ≡ inr v
    → validate_json_structure from_str data_text ≡ verdict (depth v)
unfolding validate_json_structure
validate_json_structure-depth from_str data_text v parsed =
    rw parsed (check_json_depth-depth v 0 ∙ ap verdict (omega arith))

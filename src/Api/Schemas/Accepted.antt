-- ===== src/Api/Schemas/Accepted.antt =====
-- Which requests `SubmitDataRequest::validate` of src/api/schemas.rs accepts.
use goud_chain.Prelude.{
  ℕ, ◌≤◌, ltb, leb, String, str_eq, Bool, true, false, not, Bool-cases, inl, inr, ◌≡◌, refl, sym,
  ◌∙◌, ◌↔◌, arith,
}
use goud_chain.Errors.{ok, err, >>=-eq-ok, Fallible, map_err, map_err-eq-ok, guard, guard-eq-ok}
use goud_chain.Validation.{
  Value, label_regex, max_json_depth, validate_label, validate_json_structure,
}
use goud_chain.Validation.Depth.{depth, verdict, validate_json_structure-depth}
use goud_chain.Api.Schemas.{SubmitDataRequest, len, check_size, max_label_length, validate_request}

check_size-ok : (limit size : ℕ) → check_size limit size ≡ ok tt → size ≤ limit
check_size-ok limit size h = ground (arith, guard-eq-ok (not (ltb limit size)) _ h)

ok-check_size : (limit size : ℕ) → size ≤ limit → check_size limit size ≡ ok tt
ok-check_size limit size h = ground arith

verdict-ok : (n : ℕ) → verdict n ≡ ok tt → n ≤ 10
verdict-ok n h = elim (Bool-cases (leb n max_json_depth)) [
  | inl e ↦ ground arith
  | inr e ↦ let wrong : err _ ≡ ok tt = rw e at h in cc
]

ok-verdict : (n : ℕ) → n ≤ 10 → verdict n ≡ ok tt
ok-verdict n h = ground arith

module _ (is_match : String → String → Bool) (from_str : String → Fallible Value) where
  -- A label that is not empty, that the expression matches and that has at most 100 bytes, and data of
  -- at most ten million bytes that parses as JSON of a depth of at most 10.
  pub record IsAcceptable (q : SubmitDataRequest) : Type 0 where
    pub not_empty : str_eq q.label "" ≡ false
    pub matched : is_match label_regex q.label ≡ true
    pub short : len q.label ≤ 100
    pub value : Value
    pub parsed : from_str q.data_text ≡ inr value
    pub shallow : depth value ≤ 10
    pub small : len q.data_text ≤ 10000000

  json_ok :
      (s : String)
      → validate_json_structure from_str s ≡ ok tt
      → (v : Value) × (from_str s ≡ inr v) × (depth v ≤ 10)
  unfolding validate_json_structure
  json_ok s h =
      let (v, parsed, _) = >>=-eq-ok (map_err _ (from_str s)) _ h in
      let value = map_err-eq-ok _ (from_str s) parsed in
      (v, value, verdict-ok (depth v) (sym (validate_json_structure-depth from_str s v value) ∙ h))

  accepted : (q : SubmitDataRequest) → validate_request is_match from_str q ≡ ok tt → IsAcceptable q
  unfolding validate_request validate_label
  accepted q h =
      let (_, a, h1) = >>=-eq-ok (validate_label is_match q.label) _ h in
      let (_, b, h2) = >>=-eq-ok (check_size max_label_length (len q.label)) _ h1 in
      let (_, d, e) = >>=-eq-ok (validate_json_structure from_str q.data_text) _ h2 in
      let (_, f, g) = >>=-eq-ok (guard (not (str_eq q.label "")) _) _ a in
      let filled = guard-eq-ok (not (str_eq q.label "")) _ f in
      let (v, parsed, shallow) = json_ok q.data_text d in
      record {
        not_empty = ground (arith, filled);
        matched = guard-eq-ok (is_match label_regex q.label) _ g;
        short = check_size-ok 100 (len q.label) b;
        value = v;
        parsed = parsed;
        shallow = shallow;
        small = check_size-ok 10000000 (len q.data_text) e;
      }

  acceptable :
      (q : SubmitDataRequest) → IsAcceptable q → validate_request is_match from_str q ≡ ok tt
  unfolding validate_request validate_label
  acceptable q a =
      let json =
        validate_json_structure-depth from_str q.data_text a.value a.parsed
        ∙ ok-verdict (depth a.value) a.shallow in
      rw
        (
          a.not_empty,
          a.matched,
          ok-check_size 100 (len q.label) a.short,
          json,
          ok-check_size 10000000 (len q.data_text) a.small,
        )
        refl

  -- `validate` accepts a request just where its label is not empty, is matched by the regular expression
  -- and has at most 100 bytes, and its data parses as JSON of a depth of at most 10 and has
  -- at most ten million bytes.
  pub validate_request_iff :
      (q : SubmitDataRequest) → (validate_request is_match from_str q ≡ ok tt) ↔ IsAcceptable q
  validate_request_iff q = (accepted q, acceptable q)

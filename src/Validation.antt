-- ===== src/Validation.antt =====
-- src/types/validation.rs: the checks of labels and of JSON texts. The regular expression is a
-- parameter: what it matches. Of a `serde_json::Value` the arrays and the objects are told apart.
pub mod Depth
use goud_chain.Prelude.{ℕ, suc, ltb, String, ◌+++◌, str_eq, Bool, true, false, not, if◌then◌else◌}
use goud_chain.Errors.{
  Result, ok, err, ◌>>=◌, ◌>>◌, Fallible, map_err, guard, invalid_label, invalid_json,
  json_too_deep,
}

abbrev pub label_regex : String
label_regex = "^[a-zA-Z0-9 \\-_.,!?()]+$"

abbrev pub max_json_depth : ℕ
max_json_depth = 10

-- `is_match` of the compiled regular expression
module _ (is_match : String → String → Bool) where
  unfoldable pub validate_label : String → Result (Unit {0})
  validate_label label = do
    guard (not (str_eq label "")) (invalid_label "Label cannot be empty")
    guard (is_match label_regex label) (
        invalid_label
          "Label contains invalid characters (only alphanumeric, spaces, and -.!?() allowed)")

mutual
  pub data Value : Type 0 where
    primitive : Value
    array : Items → Value
    object : Members → Value

  pub data Items : Type 0 where
    no_items : Items
    item : Value → Items → Items

  pub data Members : Type 0 where
    no_members : Members
    member : String → Value → Members → Members

unfoldable mutual
  pub check_json_depth : Value → ℕ → Result (Unit {0})
  check_json_depth primitive current_depth =
      if ltb max_json_depth current_depth then err (json_too_deep max_json_depth) else ok tt
  check_json_depth (array items) current_depth =
      let rest = check_items items (suc current_depth) in
      if ltb max_json_depth current_depth then err (json_too_deep max_json_depth) else rest
  check_json_depth (object members) current_depth =
      let rest = check_members members (suc current_depth) in
      if ltb max_json_depth current_depth then err (json_too_deep max_json_depth) else rest

  -- The loops, at the depth of the members.
  pub check_items : Items → ℕ → Result (Unit {0})
  check_items no_items depth = ok tt
  check_items (item v rest) depth = check_json_depth v depth >> check_items rest depth

  pub check_members : Members → ℕ → Result (Unit {0})
  check_members no_members depth = ok tt
  check_members (member k v rest) depth = check_json_depth v depth >> check_members rest depth

-- `serde_json::from_str`
module _ (from_str : String → Fallible Value) where
  unfoldable pub validate_json_structure : String → Result (Unit {0})
  unfolding check_json_depth
  validate_json_structure data_text = do
    parsed ← map_err (λ e. invalid_json ("Failed to parse JSON: " +++ e)) (from_str data_text)
    check_json_depth parsed 0

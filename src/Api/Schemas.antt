-- ===== src/Api/Schemas.antt =====
-- src/api/schemas.rs: `SubmitDataRequest` and its `validate`. The regular expression and the parser of
-- JSON are parameters.
pub mod Accepted
use goud_chain.Prelude.{ℕ, ltb, String, length, Bool, not}
use goud_chain.Errors.{Result, ok, err, ◌>>◌, Fallible, guard, payload_too_large}
use goud_chain.Crypto.Externals.{as_bytes}
use goud_chain.Validation.{Value, validate_label, validate_json_structure}

abbrev pub max_collection_size_bytes : ℕ
max_collection_size_bytes = 10000000

abbrev pub max_label_length : ℕ
max_label_length = 100

pub record SubmitDataRequest : Type 0 where
  pub label : String
  pub data_text : String

-- `text.len()`
abbrev pub len : String → ℕ
len text = length (as_bytes text)

abbrev pub check_size : ℕ → ℕ → Result (Unit {0})
check_size limit size = guard (not (ltb limit size)) (payload_too_large size limit)

module _ (is_match : String → String → Bool) (from_str : String → Fallible Value) where
  unfoldable pub validate_request : SubmitDataRequest → Result (Unit {0})
  validate_request q = do
    validate_label is_match q.label
    check_size max_label_length (len q.label)
    validate_json_structure from_str q.data_text
    check_size max_collection_size_bytes (len q.data_text)

-- ===== src/Config.antt =====
-- src/config.rs: `ValidatorConfig`, the round-robin assignment of blocks to validators.
use goud_chain.Prelude.{
  ℕ, ◌%◌, String, Bool, false, Option, none, some, List, length, get_elem?, StrMap, lookup, str_eq,
}
use goud_chain.Errors.{Result, ok, ◌>>=◌, or_panic}

pub record ValidatorConfig : Type 0 where
  pub validators : List String
  pub node_to_validator : StrMap String
  pub validator_to_address : StrMap String

-- `validators[block_number % validators.len()]`: with no validator the program panics.
unfoldable pub round_robin : List String → ℕ → Result String
round_robin validators block_number =
    or_panic (get_elem? validators (block_number % length validators))

unfoldable pub get_validator_for_block : ValidatorConfig → ℕ → Result String
unfolding round_robin
get_validator_for_block c block_number = round_robin c.validators block_number

-- `.map(|v| v == &expected_validator).unwrap_or(false)`
abbrev pub is_mapped_to : String → Option String → Bool
is_mapped_to expected none = false
is_mapped_to expected (some v) = str_eq v expected

unfoldable pub is_node_authorized : ValidatorConfig → String → ℕ → Result Bool
unfolding get_validator_for_block
is_node_authorized c node_id block_number = do
  expected_validator ← get_validator_for_block c block_number
  ok (is_mapped_to expected_validator (lookup node_id c.node_to_validator))

unfoldable pub get_validator_address : ValidatorConfig → String → Option String
get_validator_address c validator = lookup validator c.validator_to_address

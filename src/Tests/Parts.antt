-- ===== src/Tests/Parts.antt =====
-- The merkle root, timestamps, sealed blocks and the trackers of peers.
use goud_chain.Prelude.{
  pos, ◌+ℤ◌, ◌≤ℤ◌, String, [], ◌∷◌, true, ◌≡◌, inr, refl, arith, show, show_ℤ, ◌↔◌,
}
use Prim.Native.Nat.{min}
use goud_chain.Errors.{ok}
use goud_chain.Constants.{timestamp_tolerance_seconds, genesis_previous_hash}
use goud_chain.Crypto.Externals.{as_bytes}
use goud_chain.Domain.Merkle.{leaves, calculate_merkle_root}
use goud_chain.Domain.Merkle.Tree.{
  Perfect, leaf, node, frontier, digest, calculate_merkle_root_total,
  calculate_merkle_root-frontier, calculate_merkle_root_collision,
}
use goud_chain.Domain.Block.{BlockConfig, obfuscate_timestamp, new_block, calculate_hash}
use goud_chain.Domain.Block.Timestamp.{obfuscate_timestamp-le-tolerance}
use goud_chain.Network.Tracker.{new_tracker}
use goud_chain.Network.Tracker.Window.{count_allowed, count_allowed_window}
use goud_chain.Crypto.Encryption.{encrypt_data_with_nonce}
use goud_chain.Crypto.Hkdf.{hash_api_key_hex}
use goud_chain.Domain.Types.{AccountEnvelope}
use goud_chain.Domain.Envelope.{encrypt_account_envelope}
use goud_chain.Validation.{
  Value, primitive, array, object, item, no_items, member, no_members, validate_json_structure,
}
use goud_chain.Validation.Depth.{depth, verdict, validate_json_structure-depth}
use goud_chain.Api.Schemas.{SubmitDataRequest, validate_request}
use goud_chain.Api.Schemas.Accepted.{IsAcceptable, validate_request_iff}
use goud_chain.Tests.Toy.{mark, crates, json, account, zeros}
use goud_chain.Tests.Chains.{genesis, no_keys}

calculate_merkle_root_total_example :
    (root : String) × (calculate_merkle_root mark "d" ("i" ∷ "k" ∷ []) ≡ ok root)
calculate_merkle_root_total_example = calculate_merkle_root_total mark "d" ("i" ∷ "k" ∷ [])

abbrev small_tree : Perfect 1
small_tree = node (leaf "hd") (leaf "hi")

frontier-small_tree : frontier small_tree ≡ leaves mark "d" ("i" ∷ [])
unfolding frontier leaves
frontier-small_tree = refl

calculate_merkle_root-frontier_example :
    calculate_merkle_root mark "d" ("i" ∷ []) ≡ ok (digest mark small_tree)
calculate_merkle_root-frontier_example =
    calculate_merkle_root-frontier mark small_tree "d" ("i" ∷ []) refl frontier-small_tree

calculate_merkle_root_collision_example :
    calculate_merkle_root mark "hdhi" [] ≡ calculate_merkle_root mark "d" ("i" ∷ [])
calculate_merkle_root_collision_example = calculate_merkle_root_collision mark "d" "i" refl

obfuscate_timestamp-le-tolerance_example :
    obfuscate_timestamp (pos 90000) (pos 14400) ≤ℤ pos 90001 +ℤ pos timestamp_tolerance_seconds
obfuscate_timestamp-le-tolerance_example =
    obfuscate_timestamp-le-tolerance 90000 90001 (pos 14400) (omega arith) (omega arith)

abbrev config : BlockConfig
config = record {
  index = 0;
  account_envelopes = [];
  collection_envelopes = [];
  previous_hash = genesis_previous_hash;
  validator = "v";
  blind_indexes = [];
  block_salt = "genesis_salt";
}

new_block-genesis : new_block crates json config (pos 0) (pos 0) ≡ ok genesis
unfolding new_block calculate_merkle_root as_bytes calculate_hash show show_ℤ
new_block-genesis = refl

count_allowed_window_example : count_allowed (0 ∷ 10 ∷ 59 ∷ []) (new_tracker 0) ≡ min 3 100
count_allowed_window_example = count_allowed_window 0 (0 ∷ 10 ∷ 59 ∷ []) (omega arith)

abbrev sealed : AccountEnvelope
sealed = record { encrypted_data = "bbbbbbbbbbbb"; api_key_hash = ""; nonce = "" }

encrypt_account :
    encrypt_account_envelope crates json no_keys account (1 ∷ []) "s" (zeros 12) ≡ ok sealed
unfolding encrypt_account_envelope encrypt_data_with_nonce hash_api_key_hex as_bytes
encrypt_account = refl

utf8_empty : crates.from_utf8 (as_bytes "") ≡ inr ""
utf8_empty = refl

abbrev nested : Value
nested = array (item (object (member "k" primitive no_members)) (item (array no_items) no_items))

validate_json_structure-depth_example :
    validate_json_structure (λ s. inr nested) "[{\"k\":1},[]]" ≡ verdict (depth nested)
validate_json_structure-depth_example =
    validate_json_structure-depth (λ s. inr nested) "[{\"k\":1},[]]" nested refl

abbrev submission : SubmitDataRequest
submission = record { label = "records"; data_text = "[{\"k\":1},[]]" }

validate_request_iff_example :
    (validate_request (λ regex s. true) (λ s. inr nested) submission ≡ ok tt)
    ↔ IsAcceptable (λ regex s. true) (λ s. inr nested) submission
validate_request_iff_example = validate_request_iff (λ regex s. true) (λ s. inr nested) submission

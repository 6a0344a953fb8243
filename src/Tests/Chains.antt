-- ===== src/Tests/Chains.antt =====
-- A chain of two blocks by the validator `v`, and the theorems on it.
use goud_chain.Prelude.{
  ℕ, ℤ, pos, String, ◌+++◌, List, [], ◌∷◌, ◌++◌, ◌≡◌, refl, ◌↔◌, arith, show, show_ℤ, rem, ◌+ℤ◌,
  ◌-ℤ◌, lookup,
}
use goud_chain.Errors.{ok}
use goud_chain.Constants.{
  schema_version, genesis_timestamp, genesis_previous_hash, empty_merkle_root,
}
use goud_chain.Config.{ValidatorConfig, round_robin, is_node_authorized}
use goud_chain.Crypto.Externals.{Bytes, as_bytes}
use goud_chain.Domain.Types.{Block}
use goud_chain.Domain.Block.{
  calculate_hash, hash_content, new_block, owned, obfuscate_timestamp, verify_data,
  get_envelope_container, verify_all,
}
use goud_chain.Crypto.Encryption.{encrypt_data_with_nonce}
use goud_chain.Crypto.Hkdf.{hash_api_key_hex}
use goud_chain.Domain.Merkle.{calculate_merkle_root}
use goud_chain.Domain.Envelope.{encrypt_account_envelope}
use goud_chain.Domain.Blockchain.{Blockchain, get_latest_block, next_index}
use goud_chain.Domain.Blockchain.Validate.{check_block, check_from, check_chain, is_valid}
use goud_chain.Domain.Blockchain.Validate.Links.{IsLinkedChain, check_chain_iff}
use goud_chain.Domain.Blockchain.Add.Keeps.{IsTimely, add_block-is_valid}
use goud_chain.Domain.Blockchain.Find.{find_collections_by_owner}
use goud_chain.Domain.Blockchain.Find.Added.{find_collections_by_owner-add_block}
use goud_chain.Tests.Laws.{reads_back}
use goud_chain.Domain.Blockchain.Add.{
  Draws, new, add_block, create_block, author_block, seal_accounts,
}
use goud_chain.Tests.Toy.{item, mark, crates, json, account, to_unary}

abbrev pub validators : ValidatorConfig
validators = record {
  validators = "v" ∷ [];
  node_to_validator = ("n", "v") ∷ [];
  validator_to_address = [];
}

abbrev pub genesis : Block
genesis = record {
  index = 0;
  timestamp = genesis_timestamp;
  encrypted_block_data = "";
  blind_indexes = [];
  block_salt = "genesis_salt";
  validator = "v";
  previous_hash = genesis_previous_hash;
  merkle_root = empty_merkle_root;
  hash = mark ("01704067200" +++ empty_merkle_root +++ genesis_previous_hash +++ "v");
}

-- A node with an account that waits for a block.
abbrev pub node_chain : List Block → Blockchain
node_chain chain = record {
  schema_version = schema_version;
  chain = chain;
  node_id = "n";
  checkpoints = [];
  pending_accounts_with_keys = (account, 1 ∷ []) ∷ [];
  pending_collections = [];
  validator_config = validators;
}

abbrev pub draws : Draws
draws = record { now = pos 1704190000; jitter = pos 60; block_salt = "s"; nonce = λ i. [] }

-- The validator's clock.
abbrev pub clock : ℕ → ℤ
clock i = pos 1704190000

abbrev pub block_data : String
block_data = to_unary (33 ∷ [])

abbrev pub block : Block
block = record {
  index = 1;
  timestamp = pos 1704153660;
  encrypted_block_data = block_data;
  blind_indexes = [];
  block_salt = "s";
  validator = "v";
  previous_hash = genesis.hash;
  merkle_root = mark block_data;
  hash = mark ("11704153660" +++ mark block_data +++ genesis.hash +++ "v");
}

abbrev pub no_keys : Bytes → Bytes → Bytes
no_keys key context = []

abbrev pub alone : Blockchain
alone = node_chain (genesis ∷ [])

abbrev pub both : List Block
both = genesis ∷ block ∷ []

new_genesis :
    new crates json "n" validators (pos 0) (pos 0)
    ≡ ok (record alone { pending_accounts_with_keys = [] })
unfolding new round_robin new_block calculate_merkle_root as_bytes calculate_hash show show_ℤ
new_genesis = refl

pub add_block-block : (add_block crates json no_keys alone draws).0 ≡ ok block
unfolding add_block create_block author_block get_latest_block next_index round_robin
    is_node_authorized lookup seal_accounts encrypt_account_envelope encrypt_data_with_nonce
    hash_api_key_hex new_block calculate_merkle_root as_bytes calculate_hash show show_ℤ
    obfuscate_timestamp rem ◌+ℤ◌ ◌-ℤ◌
add_block-block = refl

pub check_chain-both : check_chain crates json ("v" ∷ []) clock both ≡ ok tt
unfolding check_chain check_from check_block round_robin calculate_merkle_root as_bytes
    calculate_hash hash_content show show_ℤ verify_data get_envelope_container verify_all ◌+ℤ◌
check_chain-both = refl

pub is_valid-alone : is_valid crates json clock alone ≡ ok tt
unfolding is_valid check_chain check_from
is_valid-alone = refl

check_chain_iff_example :
    (check_chain crates json ("v" ∷ []) clock both ≡ ok tt)
    ↔ IsLinkedChain crates json ("v" ∷ []) clock both
check_chain_iff_example = check_chain_iff crates json ("v" ∷ []) clock both

timely : IsTimely crates json no_keys reads_back draws clock 1
timely = record {
  made = 1704190000;
  read = 1704190000;
  made_eq = refl;
  read_eq = refl;
  after_genesis = omega arith;
  forward = omega arith;
  jitter = omega arith;
}

add_block-is_valid_example :
    is_valid crates json clock (add_block crates json no_keys alone draws).1 ≡ ok tt
unfolding verify_all
add_block-is_valid_example =
    add_block-is_valid crates json no_keys reads_back alone draws clock genesis block is_valid-alone
      refl timely refl add_block-block

-- A node with a collection that waits for a block.
abbrev keeper : Blockchain
keeper = record alone { pending_accounts_with_keys = []; pending_collections = item ∷ [] }

abbrev item_data : String
item_data = to_unary (35 ∷ 35 ∷ [])

abbrev item_block : Block
item_block = record block {
  encrypted_block_data = item_data;
  merkle_root = mark item_data;
  hash = mark ("11704153660" +++ mark item_data +++ genesis.hash +++ "v");
}

add_block-item_block : (add_block crates json no_keys keeper draws).0 ≡ ok item_block
unfolding add_block create_block author_block get_latest_block next_index round_robin
    is_node_authorized lookup seal_accounts new_block calculate_merkle_root as_bytes calculate_hash
    show show_ℤ obfuscate_timestamp rem ◌+ℤ◌ ◌-ℤ◌
add_block-item_block = refl

find_collections_by_owner-add_block_example :
    find_collections_by_owner crates json (add_block crates json no_keys keeper draws).1 (1 ∷ [])
    ≡ find_collections_by_owner crates json keeper (1 ∷ []) ++ item ∷ []
unfolding hash_api_key_hex owned
find_collections_by_owner-add_block_example =
    find_collections_by_owner-add_block crates json no_keys reads_back keeper draws item_block
      (1 ∷ []) add_block-item_block

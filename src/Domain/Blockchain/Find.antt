-- ===== src/Domain/Blockchain/Find.antt =====
-- src/domain/blockchain.rs: the searches by API key.
pub mod Added
use goud_chain.Prelude.{
  String, str_eq, List, [], ◌∷◌, ◌++◌, any, find?, Bool, true, false, ◌&&◌, Option, none, some,
  if◌then◌else◌,
}
use goud_chain.Errors.{Result, ok}
use goud_chain.Crypto.Externals.{Externals, Bytes}
use goud_chain.Crypto.BlindIndex.{generate_account_blind_index_with_salt}
use goud_chain.Crypto.Hkdf.{hash_api_key_hex}
use goud_chain.Domain.Types.{UserAccount, EncryptedCollection, Block, Json}
use goud_chain.Domain.Merkle.{is_empty}
use goud_chain.Domain.Block.{get_account, get_collections_by_owner}
use goud_chain.Domain.Blockchain.{Blockchain}

module _ (x : Externals) (j : Json) where
  unfoldable pub should_search_block : String → Block → Bool
  should_search_block api_key_hash block =
      if is_empty block.blind_indexes
      then true
      else elim (generate_account_blind_index_with_salt x api_key_hash block.block_salt) [
        | ok idx ↦ any (λ i. str_eq i idx) block.blind_indexes
        | _ ↦ false
      ]

  -- `if let Ok(collections)`
  abbrev pub or_empty : Result (List EncryptedCollection) → List EncryptedCollection
  or_empty (ok collections) = collections
  or_empty _ = []

  unfoldable pub collect_owned : Bytes → String → List Block → List EncryptedCollection
  unfolding should_search_block
  collect_owned api_key api_key_hash [] = []
  collect_owned api_key api_key_hash (block ∷ rest) =
      let others = collect_owned api_key api_key_hash rest in
      if should_search_block api_key_hash block
      then or_empty (get_collections_by_owner x j block api_key) ++ others
      else others

  unfoldable pub find_collections_by_owner : Blockchain → Bytes → List EncryptedCollection
  unfolding collect_owned
  find_collections_by_owner bc api_key = collect_owned api_key (hash_api_key_hex x api_key) bc.chain

  -- The first collection of the owner's with this id, block by block.
  unfoldable pub search_collection :
      String → Bytes → String → List Block → Option EncryptedCollection
  search_collection collection_id api_key api_key_hash [] = none
  search_collection collection_id api_key api_key_hash (block ∷ rest) =
      let others = search_collection collection_id api_key api_key_hash rest in
      elim (find?
        (λ c. str_eq c.collection_id collection_id && str_eq c.owner_api_key_hash api_key_hash)
        (or_empty (get_collections_by_owner x j block api_key))) [ some c ↦ some c | none ↦ others ]

  unfoldable pub find_collection : Blockchain → String → Bytes → Option EncryptedCollection
  unfolding search_collection
  find_collection bc collection_id api_key =
      search_collection collection_id api_key (hash_api_key_hex x api_key) bc.chain

  module _ (get_encryption_key : Bytes → Bytes → Bytes) where
    -- `if let Ok(Some(account))`
    abbrev pub found_account : Result (Option UserAccount) → Option UserAccount
    found_account (ok answer) = answer
    found_account _ = none

    unfoldable pub search_account : Bytes → String → List Block → Option UserAccount
    unfolding should_search_block
    search_account api_key api_key_hash [] = none
    search_account api_key api_key_hash (block ∷ rest) =
        let others = search_account api_key api_key_hash rest in
        if should_search_block api_key_hash block
        then elim (found_account (get_account x j get_encryption_key block api_key)) [
          | some account ↦ some account
          | none ↦ others
        ]
        else others

    unfoldable pub find_account : Blockchain → Bytes → Option UserAccount
    unfolding search_account
    find_account bc api_key = search_account api_key (hash_api_key_hex x api_key) bc.chain

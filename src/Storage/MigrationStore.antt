-- ===== src/Storage/MigrationStore.antt =====
-- src/storage/migration_store.rs: the records of the migrations that have been applied, and the current
-- schema. A key is a text, so reading it as UTF-8 does not fail.
pub mod Scan
pub mod Sorted
use text.Mathlib.Text.{starts_with}
use goud_chain.Prelude.{
  String, ◌+++◌, str_eq, str_lt, List, [], ◌∷◌, ◌++◌, Option, none, some, get_last?, any, Bool,
  true, false, not, if◌then◌else◌, inl, inr,
}
use goud_chain.Errors.{
  Result, ok, err, Fallible, map_err, rocks_db_error, serialization_error, deserialization_error,
  utf8_error,
}
use goud_chain.Errors.{◌>>=◌ as bind}
use goud_chain.Crypto.Externals.{Externals, Bytes, as_bytes}
use goud_chain.Storage.Codec.{Codec}
use goud_chain.Storage.RocksDb.{RocksDb, RocksIter, WriteOp, put, delete}
use goud_chain.Storage.Action.{Action, pure, fail, lift, ◌>>=◌, ◌>>◌}
use goud_chain.Storage.Migration.{MigrationMetadata}

abbrev pub migration_applied_prefix : String
migration_applied_prefix = "migration:applied:"

abbrev pub migration_current_schema : String
migration_current_schema = "migration:current_schema"

abbrev pub applied_key : String → String
applied_key version = migration_applied_prefix +++ version

-- `sort_by` on the versions is stable: a record goes before the first one that is not less.
abbrev pub insert_by_version : MigrationMetadata → List MigrationMetadata → List MigrationMetadata
insert_by_version m [] = m ∷ []
insert_by_version m (n ∷ ns) =
    if str_lt n.version m.version then n ∷ insert_by_version m ns else m ∷ n ∷ ns

abbrev pub sort_by_version : List MigrationMetadata → List MigrationMetadata
sort_by_version [] = []
sort_by_version (m ∷ ms) = insert_by_version m (sort_by_version ms)

-- `applied_versions.contains(version)`
abbrev pub has_version : String → List MigrationMetadata → Bool
has_version version applied = any (λ m. str_eq m.version version) applied

abbrev pub without : String → List MigrationMetadata → List MigrationMetadata
without version [] = []
without version (m ∷ ms) =
    if str_eq m.version version then without version ms else m ∷ without version ms

module _ (x : Externals) (r : RocksDb) (it : RocksIter r) (codec : Codec MigrationMetadata) where
  -- The loop over the entries, which ends at the first key without the prefix.
  unfoldable pub read_entries : List (Fallible (String × Bytes)) → Result (List MigrationMetadata)
  read_entries [] = ok []
  read_entries (inl e ∷ rest) = err (rocks_db_error e)
  read_entries (inr (key, value) ∷ rest) =
      let others = read_entries rest in
      if starts_with key migration_applied_prefix
      then bind (map_err deserialization_error (codec.deserialize value))
          (λ metadata. bind others (λ migrations. ok (metadata ∷ migrations)))
      else ok []

  unfoldable pub get_applied_migrations : Action r.Db (List MigrationMetadata)
  get_applied_migrations db = (
    bind (read_entries (it.prefix_iterator db migration_applied_prefix))
        (λ migrations. ok (sort_by_version migrations)),
    db,
  )

  abbrev pub is_some : Option Bytes → Bool
  is_some none = false
  is_some (some _) = true

  unfoldable pub is_applied : String → Action r.Db Bool
  is_applied version db = (
    bind (map_err rocks_db_error (r.get db (applied_key version))) (λ found. ok (is_some found)),
    db,
  )

  unfoldable pub write_batch : List WriteOp → Action r.Db (Unit {0})
  write_batch ops db = elim (r.write db ops) [
    | inl e ↦ (err (rocks_db_error e), db)
    | inr db' ↦ (ok tt, db')
  ]

  unfoldable pub mark_applied : MigrationMetadata → Action r.Db (Unit {0})
  mark_applied metadata = do
    serialized ← lift (map_err serialization_error (codec.serialize metadata))
    write_batch (
        put (applied_key metadata.version) serialized
        ∷ put migration_current_schema (as_bytes metadata.version)
        ∷ [])

  abbrev pub schema_of : List MigrationMetadata → WriteOp
  schema_of remaining = elim (get_last? remaining) [
    | some latest ↦ put migration_current_schema (as_bytes latest.version)
    | none ↦ delete migration_current_schema
  ]

  unfoldable pub mark_unapplied : String → Action r.Db (Unit {0})
  mark_unapplied version = do
    applied ← get_applied_migrations
    write_batch (delete (applied_key version) ∷ schema_of (without version applied) ∷ [])

  abbrev pub decode_schema : Option Bytes → Result (Option String)
  decode_schema none = ok none
  decode_schema (some bytes) =
      bind (map_err utf8_error (x.from_utf8 bytes)) (λ version. ok (some version))

  unfoldable pub get_current_schema : Action r.Db (Option String)
  get_current_schema db =
      (bind (map_err rocks_db_error (r.get db migration_current_schema)) decode_schema, db)

  unfoldable pub applied_keys : List (Fallible (String × Bytes)) → Result (List WriteOp)
  applied_keys [] = ok []
  applied_keys (inl e ∷ rest) = err (rocks_db_error e)
  applied_keys (inr (key, value) ∷ rest) =
      let others = applied_keys rest in
      if starts_with key migration_applied_prefix
      then bind others (λ ops. ok (delete key ∷ ops))
      else ok []

  unfoldable pub clear_all_migrations : Action r.Db (Unit {0})
  clear_all_migrations db =
      (lift (applied_keys (it.prefix_iterator db migration_applied_prefix)) >>= λ ops.
      write_batch (ops ++ delete migration_current_schema ∷ []))
        db

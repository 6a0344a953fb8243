-- ===== src/Storage/MigrationRunner.antt =====
-- src/storage/migration_runner.rs: migrations are applied and rolled back. The clock is an argument of
-- each application.
pub mod Applied
pub mod Kept
pub mod Pending
pub mod Rollback
pub mod Latest
use goud_chain.Prelude.{
  ℕ, zero, suc, ℤ, String, ◌+++◌, str_eq, List, [], ◌∷◌, ◌++◌, map, length, take, any, find?,
  Option, none, some, Bool, true, false, not, if◌then◌else◌,
}
use goud_chain.Errors.{
  GoudChainError, Result, ok, err, panic, guard, ok_or, migration_already_applied, migration_failed,
  migration_not_found, migration_rollback_failed, no_migrations_to_rollback,
}
use goud_chain.Errors.Display.{error_text}
use goud_chain.Crypto.Externals.{Externals}
use goud_chain.Storage.Codec.{Codec}
use goud_chain.Storage.RocksDb.{RocksDb, RocksIter}
use goud_chain.Storage.Action.{Action, pure, fail, lift, ◌>>=◌, ◌>>◌}
use goud_chain.Storage.Migration.{MigrationMetadata, Migration, validate_migration_version}
use goud_chain.Storage.MigrationStore.{
  has_version, get_applied_migrations, is_applied, mark_applied, mark_unapplied, get_current_schema,
  clear_all_migrations,
}

-- `map_err` on a method that changes the store
abbrev pub map_failure :
    {S A : Type 0} → (GoudChainError → GoudChainError) → Result A × S → Result A × S
map_failure f (ok a, s) = (ok a, s)
map_failure f (err e, s) = (err (f e), s)
map_failure f (panic, s) = (panic, s)

pub record MigrationStatus : Type 0 where
  pub applied : List MigrationMetadata
  pub pending : List String
  pub current_schema : Option String

-- `iter().rev()`
abbrev pub reversed : {A : Type 0} → List A → List A
reversed [] = []
reversed (a ∷ rest) = reversed rest ++ a ∷ []

module _ (x : Externals) (r : RocksDb) (it : RocksIter r) (codec : Codec MigrationMetadata) where
  abbrev pub not_in : List MigrationMetadata → List (Migration r.Db) → List (Migration r.Db)
  not_in applied [] = []
  not_in applied (m ∷ ms) =
      if has_version m.version applied then not_in applied ms else m ∷ not_in applied ms

  unfoldable pub get_pending_migrations :
      List (Migration r.Db) → Action r.Db (List (Migration r.Db))
  get_pending_migrations available = do
    applied ← get_applied_migrations x r it codec
    pure (not_in applied available)

  abbrev pub metadata_of : ℤ → Migration r.Db → MigrationMetadata
  metadata_of now migration = record {
    version = migration.version;
    description = migration.description;
    applied_at = now;
    checksum = migration.checksum;
  }

  abbrev pub failure_text : String → GoudChainError → String
  failure_text version e = version +++ ": " +++ error_text e

  abbrev pub run_up : Migration r.Db → Action r.Db (Unit {0})
  run_up migration db =
      map_failure (λ e. migration_failed (failure_text migration.version e)) (migration.up db)

  abbrev pub run_down : Migration r.Db → Action r.Db (Unit {0})
  run_down migration db =
      map_failure (λ e. migration_rollback_failed (failure_text migration.version e))
        (migration.down db)

  unfoldable pub apply_migration : ℤ → Migration r.Db → Action r.Db (Unit {0})
  apply_migration now migration = do
    lift (validate_migration_version migration.version)
    applied ← is_applied x r it codec migration.version
    lift (guard (not applied) (migration_already_applied migration.version))
    run_up migration
    mark_applied x r it codec (metadata_of now migration)

  -- The pending migrations one after the other; the clock is that of their places.
  unfoldable pub apply_all : (ℕ → ℤ) → ℕ → List (Migration r.Db) → Action r.Db (List String)
  apply_all clock i [] = pure []
  apply_all clock i (m ∷ ms) = do
    apply_migration (clock i) m
    versions ← apply_all clock (suc i) ms
    pure (m.version ∷ versions)

  abbrev pub apply_some : (ℕ → ℤ) → List (Migration r.Db) → Action r.Db (ℕ × List String)
  apply_some clock [] = pure (0, [])
  apply_some clock (m ∷ ms) = do
    versions ← apply_all clock 0 (m ∷ ms)
    pure (length versions, versions)

  unfoldable pub apply_pending : (ℕ → ℤ) → List (Migration r.Db) → Action r.Db (ℕ × List String)
  apply_pending clock available = do
    pending ← get_pending_migrations available
    apply_some clock pending

  unfoldable pub rollback_migration : Migration r.Db → Action r.Db (Unit {0})
  rollback_migration migration = do
    applied ← is_applied x r it codec migration.version
    lift (guard applied (migration_not_found migration.version))
    run_down migration
    mark_unapplied x r it codec migration.version

  abbrev pub find_migration : String → List (Migration r.Db) → Result (Migration r.Db)
  find_migration version available =
      ok_or
        (migration_not_found ("Migration " +++ version +++ " not found in available migrations"))
        (find? (λ m. str_eq m.version version) available)

  -- The number of the migrations that are rolled back.
  unfoldable pub rollback_all : List (Migration r.Db) → List MigrationMetadata → Action r.Db ℕ
  rollback_all available [] = pure 0
  rollback_all available (metadata ∷ rest) = do
    migration ← lift (find_migration metadata.version available)
    rollback_migration migration
    rolled_back ← rollback_all available rest
    pure (suc rolled_back)

  abbrev pub rollback_some : ℕ → List (Migration r.Db) → List MigrationMetadata → Action r.Db ℕ
  rollback_some count available [] = fail no_migrations_to_rollback
  rollback_some count available (m ∷ ms) = rollback_all available (take count (reversed (m ∷ ms)))

  unfoldable pub rollback_last : ℕ → List (Migration r.Db) → Action r.Db ℕ
  rollback_last count available = do
    applied ← get_applied_migrations x r it codec
    rollback_some count available applied

  unfoldable pub reset : Action r.Db (Unit {0})
  reset = clear_all_migrations x r it codec

  abbrev pub versions_of : List (Migration r.Db) → List String
  versions_of [] = []
  versions_of (m ∷ ms) = m.version ∷ versions_of ms

  unfoldable pub get_status : List (Migration r.Db) → Action r.Db MigrationStatus
  get_status available = do
    applied ← get_applied_migrations x r it codec
    current_schema ← get_current_schema x r it codec
    pending ← get_pending_migrations available
    pure (record {
      applied = applied;
      pending = versions_of pending;
      current_schema = current_schema;
    })

-- ===== src/Storage/MigrationRunner/Latest.antt =====
-- The current schema after `rollback_migration` (src/storage/migration_runner.rs).
use goud_chain.Prelude.{
  String, str_lt, str_eq, eq_iff, List, Option, none, some, Bool, true, false, Bool-cases, inl, inr,
  ◌≡◌, refl, sym, ap, ◌∙◌, starts_with-append,
}
use mathlib.Core.Path.{subst}
use goud_chain.Errors.{Result, ok, ok_injective, >>=-eq-ok}
use goud_chain.Crypto.Externals.{Externals}
use goud_chain.Storage.Codec.{Codec}
use goud_chain.Storage.RocksDb.{RocksDb, RocksDbLaws, RocksIter, RocksIterLaws}
use goud_chain.Storage.Action.{Action}
use goud_chain.Storage.Migration.{MigrationMetadata, Migration}
use goud_chain.Storage.MigrationStore.{
  migration_applied_prefix, migration_current_schema, applied_key, without, is_applied, has_version,
  get_applied_migrations,
}
use goud_chain.Storage.MigrationStore.Scan.{IsConsistent}
use goud_chain.Storage.MigrationStore.Sorted.{
  IsSorted, IsLatest, latest_version, sort_by_version-IsSorted, without-IsSorted,
  has_version-without_self, has_version-without, latest_version-IsLatest,
}
use goud_chain.Storage.MigrationRunner.{rollback_migration}
use goud_chain.Storage.MigrationRunner.Applied.{KeepsMarks}
use goud_chain.Storage.MigrationRunner.Kept.{applied_key-starts_with}
use goud_chain.Storage.MigrationStore.{sort_by_version, read_entries}
use goud_chain.Storage.MigrationRunner.Rollback.{bytes_of, rolled_back}

module _ (x : Externals) (r : RocksDb) (it : RocksIter r) (codec : Codec MigrationMetadata) where
  -- What the current schema says in a database: no version is applied, or this one is and no later one.
  abbrev pub IsLatestApplied : Option String → r.Db → Type 0
  IsLatestApplied none db = (version : String) → (is_applied x r it codec version db).0 ≡ ok false
  IsLatestApplied (some latest) db =
      ((is_applied x r it codec latest db).0 ≡ ok true)
      × ((version : String)
          → (is_applied x r it codec version db).0 ≡ ok true
          → str_lt latest version ≡ false)

  IsLatest-IsLatestApplied :
      (latest : Option String) (ms : List MigrationMetadata) (db : r.Db)
      → ((version : String) → (is_applied x r it codec version db).0 ≡ ok (has_version version ms))
      → IsLatest latest ms
      → IsLatestApplied latest db
  IsLatest-IsLatestApplied none ms db known h = λ version. known version ∙ ap ok (h version)
  IsLatest-IsLatestApplied (some latest) ms db known (here, h) = (
    known latest ∙ ap ok here,
    λ version found. h version (ok_injective (sym (known version) ∙ found)),
  )

  get_applied_migrations-IsSorted :
      (db : r.Db) (ms : List MigrationMetadata)
      → (get_applied_migrations x r it codec db).0 ≡ ok ms
      → IsSorted ms
  unfolding get_applied_migrations
  get_applied_migrations-IsSorted db ms h =
      let (unsorted, _, sorted) =
        >>=-eq-ok (read_entries x r it codec (it.prefix_iterator db migration_applied_prefix))
          (λ migrations. ok (sort_by_version migrations)) h in
      subst IsSorted (ok_injective sorted) (sort_by_version-IsSorted unsorted)

  -- What is applied after a rollback: what was applied, without the migration.
  applied_after :
      (version : String) (ms : List MigrationMetadata) (before : String → Result Bool) (s' : r.Db)
      → (is_applied x r it codec version s').0 ≡ ok false
      → ((w : String) → str_eq version w ≡ false → (is_applied x r it codec w s').0 ≡ before w)
      → ((w : String) → before w ≡ ok (has_version w ms))
      → (w : String) → (is_applied x r it codec w s').0 ≡ ok (has_version w (without version ms))
  applied_after version ms before s' gone others known w = elim (Bool-cases (str_eq version w)) [
    | inl e ↦
        subst (λ v. (is_applied x r it codec v s').0 ≡ ok (has_version v (without version ms)))
          ((eq_iff version w).0 e) (gone ∙ ap ok (sym (has_version-without_self version ms)))
    | inr e ↦ others w e ∙ known w ∙ ap ok (sym (has_version-without version w ms e))
  ]

  is_applied-KeepsMarks :
      (run : Action r.Db (Unit {0})) (s : r.Db) (version : String)
      → KeepsMarks x r it codec run
      → (is_applied x r it codec version s).0 ≡ (is_applied x r it codec version (run s).1).0
  unfolding is_applied
  is_applied-KeepsMarks run s version marks =
      rw
        (marks s (applied_key version) (
          applied_key-starts_with (applied_key version)
            (starts_with-append migration_applied_prefix version)))
        refl

  module _ (db_laws : RocksDbLaws r) (iter_laws : RocksIterLaws r it) where
    -- After `rollback_migration` has succeeded its migration is no longer applied, every other version is
    -- applied just where it was before, and the key of the current schema has the version that is
    -- applied and than which no applied version is later, or nothing where none is applied. This
    -- asks that every entry under the prefix is a record of a migration, that `down` does not
    -- touch the records, and that reads do not fail; writes may fail.
    pub rollback_migration_lem :
        (m : Migration r.Db) (s : r.Db)
        → IsConsistent x r it codec s
        → KeepsMarks x r it codec m.down
        → (rollback_migration x r it codec m s).0 ≡ ok tt
        → let s' = (rollback_migration x r it codec m s).1 in
          (is_applied x r it codec m.version s' ≡ (ok false, s'))
          × ((version : String)
              → str_eq m.version version ≡ false
              → (is_applied x r it codec version s').0 ≡ (is_applied x r it codec version s).0)
          × ((latest : Option String) × (r.get s' migration_current_schema ≡ inr (bytes_of latest))
              × IsLatestApplied latest s')
    rollback_migration_lem m s consistent marks h =
        let (ms, ran, known, gone, others, schema) =
          rolled_back x r it codec db_laws iter_laws m s consistent marks h in
        let s' = (rollback_migration x r it codec m s).1 in
        let rest = without m.version ms in
        let sorted =
          without-IsSorted m.version ms
            (get_applied_migrations-IsSorted (m.down s).1 ms (ap (λ p. p.0) ran)) in
        let before = λ (w : String). (is_applied x r it codec w s).0 in
        (
          gone,
          others,
          (
            latest_version rest,
            schema,
            IsLatest-IsLatestApplied (latest_version rest) rest s'
                (applied_after m.version ms before s' (ap (λ p. p.0) gone) others
                  (λ w. is_applied-KeepsMarks m.down s w marks ∙ ap (λ p. p.0) (known w)))
                (latest_version-IsLatest rest sorted),
          ),
        )

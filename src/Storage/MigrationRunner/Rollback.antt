-- ===== src/Storage/MigrationRunner/Rollback.antt =====
-- What `rollback_migration` of src/storage/migration_runner.rs leaves in the database.

use goud_chain.Prelude.{
  String, str_eq, eq_iff, eq_refl, List, [], ◌∷◌, Option, none, some, false, Bool-cases,
  if◌then◌else◌, inl, inr, ◌≡◌, refl, arith, sym, ap, ◌∙◌, starts_with-append,
}
use goud_chain.Errors.{ok, guard, migration_not_found}
use goud_chain.Crypto.Externals.{Externals, Bytes, as_bytes}
use goud_chain.Storage.Codec.{Codec}
use goud_chain.Storage.RocksDb.{RocksDb, RocksDbLaws, RocksIter, RocksIterLaws, delete, after}
use goud_chain.Storage.Action.{Action, lift, next-eq-ok}
use goud_chain.Storage.Migration.{MigrationMetadata, Migration}
use goud_chain.Storage.MigrationStore.{
  migration_applied_prefix, migration_current_schema, applied_key, without, schema_of, is_applied,
  has_version, mark_unapplied, write_batch, get_applied_migrations,
}
use goud_chain.Storage.MigrationStore.Scan.{
  IsConsistent, is_applied-get_applied_migrations, applied_key_injective,
}
use goud_chain.Storage.MigrationStore.Sorted.{latest_version}
use goud_chain.Storage.MigrationRunner.{run_down, rollback_migration}
use goud_chain.Storage.MigrationRunner.Applied.{KeepsMarks, map_failure-ok, write_batch-ok}
use goud_chain.Storage.MigrationRunner.Kept.{applied_key-starts_with, schema_elsewhere}

abbrev pub bytes_of : Option String → Option Bytes
bytes_of none = none
bytes_of (some s) = some (as_bytes s)

schema-ne-applied_key :
    (version : String) → str_eq migration_current_schema (applied_key version) ≡ false
schema-ne-applied_key version =
    schema_elsewhere (applied_key version) (starts_with-append migration_applied_prefix version)

applied_key-ne :
    (a b : String) → str_eq a b ≡ false → str_eq (applied_key a) (applied_key b) ≡ false
applied_key-ne a b ne = elim (Bool-cases (str_eq (applied_key a) (applied_key b))) [
  | inl e ↦
      let same = applied_key_injective a b ((eq_iff (applied_key a) (applied_key b)).0 e) in
      absurd (ground (arith, eq_iff a b))
  | inr e ↦ e
]

module _ (x : Externals) (r : RocksDb) (it : RocksIter r) (codec : Codec MigrationMetadata) where
  after-schema_of :
      (ms : List MigrationMetadata) (old : Option Bytes)
      → after (schema_of x r it codec ms) migration_current_schema old
        ≡ bytes_of (latest_version ms)
  after-schema_of [] old = refl
  after-schema_of (m ∷ []) old = refl
  after-schema_of (m ∷ n ∷ ms) old = after-schema_of (n ∷ ms) old

  after_schema_elsewhere :
      (ms : List MigrationMetadata) (k : String) (old : Option Bytes)
      → str_eq migration_current_schema k ≡ false
      → after (schema_of x r it codec ms) k old ≡ old
  after_schema_elsewhere [] k old ne = rw ne refl
  after_schema_elsewhere (m ∷ []) k old ne = rw ne refl
  after_schema_elsewhere (m ∷ n ∷ ms) k old ne = after_schema_elsewhere (n ∷ ms) k old ne

  rollback_migration-ok :
      (m : Migration r.Db) (s : r.Db)
      → (rollback_migration x r it codec m s).0 ≡ ok tt
      → rollback_migration x r it codec m s ≡ mark_unapplied x r it codec m.version (m.down s).1
  unfolding rollback_migration is_applied
  rollback_migration-ok m s h =
      let (found, asked, e1) = next-eq-ok (is_applied x r it codec m.version s) _ h in
      let (v, guarded, e2) =
        next-eq-ok (lift (guard found (migration_not_found m.version)) s) _
          (ap (λ p. p.0) (sym e1) ∙ h) in
      let (w, ran, e3) =
        next-eq-ok (run_down x r it codec m s) _ (ap (λ p. p.0) (sym (e1 ∙ e2)) ∙ h) in
      let (down_ok, same) = map_failure-ok _ (m.down s) ran in
      e1 ∙ e2 ∙ e3 ∙ ap (mark_unapplied x r it codec m.version) same

  module _ (db_laws : RocksDbLaws r) (iter_laws : RocksIterLaws r it) where
    mark_unapplied-get :
        (version : String) (db : r.Db)
        → IsConsistent x r it codec db
        → (mark_unapplied x r it codec version db).0 ≡ ok tt
        → (ms : List MigrationMetadata) × (get_applied_migrations x r it codec db ≡ (ok ms, db))
          × ((version : String)
              → is_applied x r it codec version db ≡ (ok (has_version version ms), db))
          × ((k : String) (old : Option Bytes)
              → r.get db k ≡ inr old
              → r.get (mark_unapplied x r it codec version db).1 k
                ≡ inr (
                    after
                      (schema_of x r it codec (without version ms))
                      k
                      (if str_eq (applied_key version) k then none else old)))
    unfolding mark_unapplied
    mark_unapplied-get version db consistent h =
        let (ms, ran, known) =
          is_applied-get_applied_migrations x r it codec iter_laws db consistent in
        let ops = delete (applied_key version) ∷ schema_of x r it codec (without version ms) ∷ [] in
        let whole : mark_unapplied x r it codec version db ≡ write_batch x r it codec ops db =
          rw (ran, mark_unapplied) refl in
        let w = write_batch-ok x r it codec ops db (ap (λ p. p.0) (sym whole) ∙ h) in
        (
          ms,
          ran,
          known,
          λ k old g.
              rw whole (db_laws.get-write db (write_batch x r it codec ops db).1 ops k old w g),
        )

    KeepsMarks-IsConsistent :
        (run : Action r.Db (Unit {0})) (s : r.Db)
        → KeepsMarks x r it codec run
        → IsConsistent x r it codec s
        → IsConsistent x r it codec (run s).1
    KeepsMarks-IsConsistent run s marks consistent k v g starts =
        consistent k v (sym (marks s k (applied_key-starts_with k starts)) ∙ g) starts

    -- What a rollback leaves, by the list that `get_applied_migrations` finds after `down`.
    pub rolled_back :
        (m : Migration r.Db) (s : r.Db)
        → IsConsistent x r it codec s
        → KeepsMarks x r it codec m.down
        → (rollback_migration x r it codec m s).0 ≡ ok tt
        → let s' = (rollback_migration x r it codec m s).1 in
          (ms : List MigrationMetadata) × (get_applied_migrations x r it codec (m.down s).1
            ≡ (ok ms, (m.down s).1))
          × ((version : String)
              → is_applied x r it codec version (m.down s).1
                ≡ (ok (has_version version ms), (m.down s).1))
          × (is_applied x r it codec m.version s' ≡ (ok false, s'))
          × ((version : String)
              → str_eq m.version version ≡ false
              → (is_applied x r it codec version s').0 ≡ (is_applied x r it codec version s).0)
          × (r.get s' migration_current_schema
              ≡ inr (bytes_of (latest_version (without m.version ms))))
    unfolding is_applied
    rolled_back m s consistent marks h =
        let same = rollback_migration-ok m s h in
        let (ms, ran, known, got) =
          mark_unapplied-get m.version (m.down s).1
            (KeepsMarks-IsConsistent m.down s marks consistent) (ap (λ p. p.0) (sym same) ∙ h) in
        let here = applied_key m.version in
        let rest = without m.version ms in
        let (old, g) = iter_laws.get-total (m.down s).1 here in
        let gone = got here old g in
        let (schema, g1) = iter_laws.get-total (m.down s).1 migration_current_schema in
        let latest = got migration_current_schema schema g1 ∙ ap inr (after-schema_of rest _) in
        (
          ms,
          ran,
          known,
          rw
              (
                same,
                gone,
                eq_refl here,
                after_schema_elsewhere rest here none (schema-ne-applied_key m.version),
              )
              refl,
          λ version ne.
              let key = applied_key version in
              let (older, g2) = iter_laws.get-total s key in
              let starts = starts_with-append migration_applied_prefix version in
              let kept = marks s key (applied_key-starts_with key starts) ∙ g2 in
              let unchanged = got key older kept in
              rw
                (
                  same,
                  unchanged,
                  applied_key-ne m.version version ne,
                  after_schema_elsewhere rest key older (schema-ne-applied_key version),
                  g2,
                )
                refl,
          rw same latest,
        )

-- ===== src/Storage/MigrationRunner/Applied.antt =====
-- What `apply_migration` of src/storage/migration_runner.rs leaves in the database.
use text.Mathlib.Text.{starts_with}
use goud_chain.Prelude.{
  ℤ, String, str_eq, eq_refl, List, [], ◌∷◌, Option, some, true, not, Bool-cases, if◌then◌else◌,
  inl, inr, ◌≡◌, refl, sym, ap, ◌∙◌,
}
use goud_chain.Errors.{
  Result, ok, err, panic, Fallible, map_err, map_err-eq-ok, guard, GoudChainError,
  migration_already_applied, serialization_error,
}
use goud_chain.Crypto.Externals.{Externals, Bytes, as_bytes}
use goud_chain.Storage.Codec.{Codec}
use goud_chain.Storage.RocksDb.{RocksDb, RocksDbLaws, RocksIter, WriteOp, put}
use goud_chain.Storage.Action.{Action, lift, next-eq-ok}
use goud_chain.Storage.Migration.{MigrationMetadata, Migration, validate_migration_version}
use goud_chain.Storage.MigrationStore.{
  migration_current_schema, applied_key, is_applied, mark_applied, write_batch, get_current_schema,
}
use goud_chain.Storage.MigrationRunner.{map_failure, metadata_of, run_up, apply_migration}

pub map_failure-ok :
    {S A : Type 0} (f : GoudChainError → GoudChainError) (p : Result A × S) {a : A}
    → (map_failure f p).0 ≡ ok a
    → (p.0 ≡ ok a) × ((map_failure f p).1 ≡ p.1)
map_failure-ok f (ok b, s) h = (h, refl)
map_failure-ok f (err e, s) h = cc
map_failure-ok f (panic, s) h = cc

module _ (x : Externals) (r : RocksDb) (it : RocksIter r) (codec : Codec MigrationMetadata) where
  abbrev pub IsApplied : String → r.Db → Type 0
  IsApplied version db = (v : Bytes) × (r.get db (applied_key version) ≡ inr (some v))

  -- A method of a migration that leaves the records of the migrations alone.
  abbrev pub KeepsMarks : Action r.Db (Unit {0}) → Type 0
  KeepsMarks run =
      (db : r.Db) (k : String) → starts_with k "migration:" ≡ true → r.get (run db).1 k ≡ r.get db k

  pub write_batch-ok :
      (ops : List WriteOp) (db : r.Db)
      → (write_batch x r it codec ops db).0 ≡ ok tt
      → r.write db ops ≡ inr (write_batch x r it codec ops db).1
  unfolding write_batch
  write_batch-ok ops db = written (r.write db ops) refl
    where
      written :
          (w : Fallible r.Db)
          → r.write db ops ≡ w
          → (write_batch x r it codec ops db).0 ≡ ok tt
          → r.write db ops ≡ inr (write_batch x r it codec ops db).1
      written (inl e) same h = let wrong : err _ ≡ ok tt = rw (same, write_batch) at h in cc
      written (inr d) same h = rw (same, write_batch) refl

  pub apply_migration-ok :
      (now : ℤ) (m : Migration r.Db) (s : r.Db)
      → (apply_migration x r it codec now m s).0 ≡ ok tt
      → (validate_migration_version m.version ≡ ok tt)
        × (apply_migration x r it codec now m s
            ≡ mark_applied x r it codec (metadata_of x r it codec now m) (m.up s).1)
  unfolding apply_migration is_applied
  apply_migration-ok now m s h =
      let (u, valid, e1) = next-eq-ok (lift (validate_migration_version m.version) s) _ h in
      let (found, asked, e2) =
        next-eq-ok (is_applied x r it codec m.version s) _ (ap (λ p. p.0) (sym e1) ∙ h) in
      let (v, guarded, e3) =
        next-eq-ok (lift (guard (not found) (migration_already_applied m.version)) s) _
          (ap (λ p. p.0) (sym (e1 ∙ e2)) ∙ h) in
      let (w, ran, e4) =
        next-eq-ok (run_up x r it codec m s) _ (ap (λ p. p.0) (sym (e1 ∙ e2 ∙ e3)) ∙ h) in
      let (up_ok, same) = map_failure-ok _ (m.up s) ran in
      (
        valid,
        e1 ∙ e2 ∙ e3 ∙ e4 ∙ ap (mark_applied x r it codec (metadata_of x r it codec now m)) same,
      )

  -- The two entries that `mark_applied` writes.
  mark_applied-ok :
      (md : MigrationMetadata) (db : r.Db)
      → (mark_applied x r it codec md db).0 ≡ ok tt
      → (bytes : Bytes) × (codec.serialize md ≡ inr bytes)
        × (r.write db (
              put (applied_key md.version) bytes
              ∷ put migration_current_schema (as_bytes md.version)
              ∷ [])
            ≡ inr (mark_applied x r it codec md db).1)
  unfolding mark_applied
  mark_applied-ok md db h =
      let (bytes, serialized, e) =
        next-eq-ok (lift (map_err serialization_error (codec.serialize md)) db) _ h in
      let h1 = ap (λ p. p.0) (sym e) ∙ h in
      (
        bytes,
        map_err-eq-ok serialization_error (codec.serialize md) serialized,
        write_batch-ok _ db h1 ∙ ap (λ p. inr p.1) (sym e),
      )

  module _ (db_laws : RocksDbLaws r) where
    -- What is under a key once a migration has been marked.
    pub mark_applied-get :
        (md : MigrationMetadata) (db : r.Db) (k : String) (old : Option Bytes)
        → (mark_applied x r it codec md db).0 ≡ ok tt
        → r.get db k ≡ inr old
        → (bytes : Bytes) × (codec.serialize md ≡ inr bytes)
          × (r.get (mark_applied x r it codec md db).1 k
              ≡ inr (
                  if str_eq migration_current_schema k
                  then some (as_bytes md.version)
                  else if str_eq (applied_key md.version) k
                  then some bytes
                  else old))
    mark_applied-get md db k old h g =
        let (bytes, serialized, w) = mark_applied-ok md db h in
        (
          bytes,
          serialized,
          db_laws.get-write db (mark_applied x r it codec md db).1
              (put (applied_key md.version) bytes
                ∷ put migration_current_schema (as_bytes md.version)
                ∷ [])
              k old w g,
        )

    -- Reads do not fail.
    module _ (total : (d : r.Db) (k : String) → (old : Option Bytes) × (r.get d k ≡ inr old)) where
      pub apply_migration-IsApplied :
          (now : ℤ) (m : Migration r.Db) (s : r.Db)
          → (apply_migration x r it codec now m s).0 ≡ ok tt
          → IsApplied m.version (apply_migration x r it codec now m s).1
      apply_migration-IsApplied now m s h =
          let (_, same) = apply_migration-ok now m s h in
          let (old, g) = total (m.up s).1 (applied_key m.version) in
          let (bytes, _, got) =
            mark_applied-get (metadata_of x r it codec now m) (m.up s).1 (applied_key m.version) old
              (ap (λ p. p.0) (sym same) ∙ h) g in
          let here = rw (eq_refl (applied_key m.version)) at got in
          rw same elim (Bool-cases (str_eq migration_current_schema (applied_key m.version))) [
            | inl e ↦ (_, rw e at here)
            | inr e ↦ (_, rw e at here)
          ]

      -- A migration is applied once: after `apply_migration` has succeeded, a second call for the
      -- same migration, at any time, gives the error that it is already applied, changes nothing and
      -- does not run the migration. The database's reads do not fail.
      pub apply_migration_again :
          (now again : ℤ) (m : Migration r.Db) (s : r.Db)
          → (apply_migration x r it codec now m s).0 ≡ ok tt
          → let s' = (apply_migration x r it codec now m s).1 in
            apply_migration x r it codec again m s'
            ≡ (err (migration_already_applied m.version), s')
      unfolding apply_migration is_applied
      apply_migration_again now again m s h =
          let (valid, _) = apply_migration-ok now m s h in
          let (bytes, got) = apply_migration-IsApplied now m s h in
          once (apply_migration x r it codec now m s).1 bytes valid got
        where
          once :
              (s' : r.Db) (bytes : Bytes)
              → validate_migration_version m.version ≡ ok tt
              → r.get s' (applied_key m.version) ≡ inr (some bytes)
              → apply_migration x r it codec again m s'
                ≡ (err (migration_already_applied m.version), s')
          once s' bytes valid got = rw (valid, got) refl

      -- After `apply_migration` has succeeded, the current schema is the version of the migration,
      -- whatever others have been applied. The database's reads do not fail, and the text of the version
      -- is read back from its bytes.
      pub get_current_schema-apply_migration :
          (now : ℤ) (m : Migration r.Db) (s : r.Db)
          → (apply_migration x r it codec now m s).0 ≡ ok tt
          → x.from_utf8 (as_bytes m.version) ≡ inr m.version
          → let s' = (apply_migration x r it codec now m s).1 in
            get_current_schema x r it codec s' ≡ (ok (some m.version), s')
      unfolding get_current_schema
      get_current_schema-apply_migration now m s h utf8 =
          let (_, same) = apply_migration-ok now m s h in
          let (old, g) = total (m.up s).1 migration_current_schema in
          let (_, _, got) =
            mark_applied-get (metadata_of x r it codec now m) (m.up s).1 migration_current_schema
              old (ap (λ p. p.0) (sym same) ∙ h) g in
          rw (same, got, utf8) refl

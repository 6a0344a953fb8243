-- ===== src/Storage/MigrationRunner/Kept.antt =====
-- The records of migrations stay while others are applied (src/storage/migration_runner.rs).
use text.Mathlib.Text.{starts_with}
use text.Mathlib.TextEquality.{starts_with_iff}
use text.Mathlib.TextLemmas.{append_assoc}
use goud_chain.Prelude.{
  ℕ, suc, ℤ, String, ◌+++◌, str_eq, eq_iff, List, [], ◌∷◌, All, Option, some, unwrap_or, true,
  false, Bool-cases, if◌then◌else◌, inl, inr, ◌≡◌, sym, ap, ◌∙◌, starts_with-append,
}
use goud_chain.Errors.{ok, inr_injective, ok_injective}
use goud_chain.Crypto.Externals.{Externals, Bytes}
use goud_chain.Storage.Codec.{Codec, IsReadBack}
use goud_chain.Storage.RocksDb.{RocksDb, RocksDbLaws, RocksIter, RocksIterLaws}
use goud_chain.Storage.Action.{next-eq-ok}
use goud_chain.Storage.Migration.{MigrationMetadata, Migration}
use goud_chain.Storage.MigrationStore.{
  migration_applied_prefix, migration_current_schema, applied_key,
}
use goud_chain.Storage.MigrationStore.Scan.{IsConsistent}
use goud_chain.Storage.MigrationRunner.{metadata_of, apply_migration, apply_all, versions_of}
use goud_chain.Storage.MigrationRunner.Applied.{
  IsApplied, KeepsMarks, apply_migration-ok, mark_applied-get, apply_migration-IsApplied,
}

pub applied_key-starts_with :
    (k : String) → starts_with k migration_applied_prefix ≡ true → starts_with k "migration:" ≡ true
applied_key-starts_with k h =
    let (u, e) = (starts_with_iff k migration_applied_prefix).0 h in
    (starts_with_iff k "migration:").1
      ("applied:" +++ u, sym (append_assoc "migration:" "applied:" u) ∙ e)

pub schema_elsewhere :
    (k : String)
    → starts_with k migration_applied_prefix ≡ true
    → str_eq migration_current_schema k ≡ false
schema_elsewhere k h = elim (Bool-cases (str_eq migration_current_schema k)) [
  | inl e ↦
      let same = (eq_iff migration_current_schema k).0 e in
      let wrong : false ≡ true = rw (sym same) at h in cc
  | inr e ↦ e
]

module _ (x : Externals) (r : RocksDb) (it : RocksIter r) (codec : Codec MigrationMetadata)
    (db_laws : RocksDbLaws r) (iter_laws : RocksIterLaws r it) (reads_back : IsReadBack codec) where
  -- Under a key of an applied migration there is the new record, or what was there before.
  kept_record :
      (now : ℤ) (m : Migration r.Db) (s : r.Db) (k : String) (old : Option Bytes)
      → KeepsMarks x r it codec m.up
      → (apply_migration x r it codec now m s).0 ≡ ok tt
      → starts_with k migration_applied_prefix ≡ true
      → r.get s k ≡ inr old
      → (bytes : Bytes) × (codec.serialize (metadata_of x r it codec now m) ≡ inr bytes)
        × (r.get (apply_migration x r it codec now m s).1 k
            ≡ inr (if str_eq (applied_key m.version) k then some bytes else old))
  kept_record now m s k old marks h starts g =
      let (_, same) = apply_migration-ok x r it codec now m s h in
      let after_up = marks s k (applied_key-starts_with k starts) ∙ g in
      let (bytes, serialized, got) =
        mark_applied-get x r it codec db_laws (metadata_of x r it codec now m) (m.up s).1 k old
          (ap (λ p. p.0) (sym same) ∙ h) after_up in
      let here = rw (schema_elsewhere k starts) at got in
      (bytes, serialized, ap (λ p. r.get p.1 k) same ∙ here)

  apply_migration-IsConsistent :
      (now : ℤ) (m : Migration r.Db) (s : r.Db)
      → KeepsMarks x r it codec m.up
      → (apply_migration x r it codec now m s).0 ≡ ok tt
      → IsConsistent x r it codec s
      → IsConsistent x r it codec (apply_migration x r it codec now m s).1
  apply_migration-IsConsistent now m s marks h consistent k v got starts =
      let (old, g) = iter_laws.get-total s k in
      let (bytes, serialized, now_there) = kept_record now m s k old marks h starts g in
      let found = inr_injective (sym now_there ∙ got) in
      elim (Bool-cases (str_eq (applied_key m.version) k)) [
        | inl e ↦
            let bytes_v : some bytes ≡ some v = rw e at found in
            (
              metadata_of x r it codec now m,
              ap codec.deserialize (sym (ap (unwrap_or bytes) bytes_v))
                  ∙ reads_back (metadata_of x r it codec now m) bytes serialized,
              sym ((eq_iff (applied_key m.version) k).0 e),
            )
        | inr e ↦
            let old_v : old ≡ some v = rw e at found in consistent k v (g ∙ ap inr old_v) starts
      ]

  apply_migration-stays :
      (now : ℤ) (m : Migration r.Db) (s : r.Db) (version : String)
      → KeepsMarks x r it codec m.up
      → (apply_migration x r it codec now m s).0 ≡ ok tt
      → IsApplied x r it codec version s
      → IsApplied x r it codec version (apply_migration x r it codec now m s).1
  apply_migration-stays now m s version marks h (v, g) =
      let starts = starts_with-append migration_applied_prefix version in
      let (bytes, _, got) = kept_record now m s (applied_key version) (some v) marks h starts g in
      elim (Bool-cases (str_eq (applied_key m.version) (applied_key version))) [
        | inl e ↦ (bytes, rw e at got)
        | inr e ↦ (v, rw e at got)
      ]

  -- The database after some migrations that all have been applied.
  pub record AllApplied (ms : List (Migration r.Db)) (s s' : r.Db) : Type 0 where
    pub consistent : IsConsistent x r it codec s'
    pub each : All (λ m. IsApplied x r it codec m.version s') ms
    pub stays :
        (version : String) → IsApplied x r it codec version s → IsApplied x r it codec version s'

  pub apply_all-AllApplied :
      (clock : ℕ → ℤ) (i : ℕ) (ms : List (Migration r.Db)) (s : r.Db) (versions : List String)
      → All (λ m. KeepsMarks x r it codec m.up) ms
      → IsConsistent x r it codec s
      → (apply_all x r it codec clock i ms s).0 ≡ ok versions
      → AllApplied ms s (apply_all x r it codec clock i ms s).1
        × (versions ≡ versions_of x r it codec ms)
  unfolding apply_all
  apply_all-AllApplied clock i [] s versions marks consistent h =
      (record { consistent = consistent; each = tt; stays = λ v a. a }, sym (ok_injective h))
  apply_all-AllApplied clock i (m ∷ ms) s versions (mark, marks) consistent h =
      let first = apply_migration x r it codec (clock i) m s in
      let (u, h1, e1) = next-eq-ok first _ h in
      let (vs, h2, e2) =
        next-eq-ok (apply_all x r it codec clock (suc i) ms first.1) _
          (ap (λ p. p.0) (sym e1) ∙ h) in
      let (rest, listed) =
        apply_all-AllApplied clock (suc i) ms first.1 vs marks
          (apply_migration-IsConsistent (clock i) m s mark h1 consistent) h2 in
      let done =
        apply_migration-IsApplied x r it codec db_laws iter_laws.get-total (clock i) m s h1 in
      let given = ok_injective (sym (ap (λ p. p.0) (e1 ∙ e2)) ∙ h) in
      (
        rw (e1 ∙ e2) (record {
          consistent = rest.consistent;
          each = (rest.stays m.version done, rest.each);
          stays = λ version a.
              rest.stays version (apply_migration-stays (clock i) m s version mark h1 a);
        }),
        sym given ∙ ap (λ l. m.version ∷ l) listed,
      )

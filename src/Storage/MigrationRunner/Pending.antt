-- ===== src/Storage/MigrationRunner/Pending.antt =====
-- What `apply_pending` of src/storage/migration_runner.rs leaves pending.

use goud_chain.Prelude.{
  ℕ, ℤ, String, List, [], ◌∷◌, All, length, Option, none, some, Bool, true, false, Bool-cases, inl,
  inr, ◌≡◌, refl, sym, ap, ◌∙◌,
}
use goud_chain.Errors.{Result, ok, ok_injective}
use goud_chain.Crypto.Externals.{Externals, Bytes}
use goud_chain.Storage.Codec.{Codec, IsReadBack}
use goud_chain.Storage.RocksDb.{RocksDb, RocksDbLaws, RocksIter, RocksIterLaws}
use goud_chain.Storage.Action.{next-eq-ok}
use goud_chain.Storage.Migration.{MigrationMetadata, Migration}
use goud_chain.Storage.MigrationStore.{applied_key, has_version, is_applied, get_applied_migrations}
use goud_chain.Storage.MigrationStore.Scan.{IsConsistent, is_applied-get_applied_migrations}
use goud_chain.Storage.MigrationRunner.{
  apply_all, apply_some, apply_pending, not_in, get_pending_migrations, versions_of,
}
use goud_chain.Storage.MigrationRunner.Applied.{IsApplied, KeepsMarks}
use goud_chain.Storage.MigrationRunner.Kept.{AllApplied, apply_all-AllApplied}

module _ (x : Externals) (r : RocksDb) (it : RocksIter r) (codec : Codec MigrationMetadata)
    (db_laws : RocksDbLaws r) (iter_laws : RocksIterLaws r it) (reads_back : IsReadBack codec) where
  -- Each migration that is pending or has been applied is applied.
  pending_or_done :
      (P : Migration r.Db → Type 0) (applied : List MigrationMetadata) (ms : List (Migration r.Db))
      → All P (not_in x r it codec applied ms)
      → ((m : Migration r.Db) → has_version m.version applied ≡ true → P m)
      → All P ms
  pending_or_done P applied [] some_ rest = tt
  pending_or_done P applied (m ∷ ms) pending done =
      elim (Bool-cases (has_version m.version applied)) [
        | inl e ↦ (done m e, pending_or_done P applied ms (rw e at pending) done)
        | inr e ↦
            let (one, more) : P m × All P (not_in x r it codec applied ms) = rw e at pending in
            (one, pending_or_done P applied ms more done)
      ]

  of_pending :
      (P : Migration r.Db → Type 0) (applied : List MigrationMetadata) (ms : List (Migration r.Db))
      → All P ms
      → All P (not_in x r it codec applied ms)
  of_pending P applied [] h = tt
  of_pending P applied (m ∷ ms) (one, more) = elim (Bool-cases (has_version m.version applied)) [
    | inl e ↦ rw e (of_pending P applied ms more)
    | inr e ↦ rw e (one, of_pending P applied ms more)
  ]

  not_in-none :
      (applied : List MigrationMetadata) (ms : List (Migration r.Db))
      → All (λ m. has_version m.version applied ≡ true) ms
      → not_in x r it codec applied ms ≡ []
  not_in-none applied [] h = refl
  not_in-none applied (m ∷ ms) (one, more) = rw one (not_in-none applied ms more)

  weaken :
      {P Q : Migration r.Db → Type 0} (ms : List (Migration r.Db))
      → ((m : Migration r.Db) → P m → Q m)
      → All P ms
      → All Q ms
  weaken [] f h = tt
  weaken (m ∷ ms) f (one, more) = (f m one, weaken ms f more)

  -- Over a consistent database a version is applied where it is in the list.
  in_list :
      (db : r.Db)
      → IsConsistent x r it codec db
      → (ms : List MigrationMetadata) × (get_applied_migrations x r it codec db ≡ (ok ms, db))
        × ((version : String) → IsApplied x r it codec version db → has_version version ms ≡ true)
        × ((version : String) → has_version version ms ≡ true → IsApplied x r it codec version db)
  unfolding is_applied
  in_list db consistent =
      let (ms, ran, same) =
        is_applied-get_applied_migrations x r it codec iter_laws db consistent in
      (
        ms,
        ran,
        λ version (v, g).
            let asked : ok true ≡ ok (has_version version ms) =
              rw g at (ap (λ p. p.0) (same version)) in
            sym (ok_injective asked),
        λ version e.
            applied_of version (iter_laws.get-total db (applied_key version)) (same version) e,
      )
    where
      applied_of :
          (version : String)
          → (old : Option Bytes) × (r.get db (applied_key version) ≡ inr old)
          → {b : Bool} → is_applied x r it codec version db ≡ (ok b, db)
          → b ≡ true
          → IsApplied x r it codec version db
      applied_of version (some v, g) asked e = (v, g)
      applied_of version (none, g) asked e =
          let no : Path (Result Bool) (ok false) (ok _) = rw g at (ap (λ p. p.0) asked) in
          let same = ok_injective no in cc

  apply_some-AllApplied :
      (clock : ℕ → ℤ) (ms : List (Migration r.Db)) (s : r.Db) (n : ℕ) (versions : List String)
      → All (λ m. KeepsMarks x r it codec m.up) ms
      → IsConsistent x r it codec s
      → (apply_some x r it codec clock ms s).0 ≡ ok (n, versions)
      → AllApplied x r it codec db_laws iter_laws reads_back ms s
          (apply_some x r it codec clock ms s).1
        × (versions ≡ versions_of x r it codec ms)
        × (n ≡ length versions)
  apply_some-AllApplied clock [] s n versions marks consistent h =
      let given = ok_injective (sym h) in
      (
        record { consistent = consistent; each = tt; stays = λ v a. a },
        ap (λ p. p.1) given,
        ap (λ p. p.0) given ∙ ap (λ p. length p.1) (sym given),
      )
  apply_some-AllApplied clock (m ∷ ms) s n versions marks consistent h =
      let (vs, h1, e1) = next-eq-ok (apply_all x r it codec clock 0 (m ∷ ms) s) _ h in
      let (all, listed) =
        apply_all-AllApplied x r it codec db_laws iter_laws reads_back clock 0 (m ∷ ms) s vs marks
          consistent h1 in
      let given = ok_injective (sym (ap (λ p. p.0) (sym e1) ∙ h)) in
      (
        rw e1 all,
        ap (λ p. p.1) given ∙ listed,
        ap (λ p. p.0) given ∙ ap (λ p. length p.1) (sym given),
      )

  -- After `apply_pending` has succeeded nothing is pending: it gives the versions of what was pending,
  -- in the order of the available migrations, with their number, and then `get_pending_migrations`
  -- finds none, over a database in which every entry under the prefix is still a record of a migration.
  -- This asks that it was so before, that no migration's `up` touches the records of
  -- the migrations, that a record is read back, and that reads do not fail; writes may fail.
  pub get_pending_migrations-apply_pending :
      (clock : ℕ → ℤ) (available : List (Migration r.Db)) (s : r.Db) (n : ℕ)
      (versions : List String)
      → All (λ m. KeepsMarks x r it codec m.up) available
      → IsConsistent x r it codec s
      → (apply_pending x r it codec clock available s).0 ≡ ok (n, versions)
      → let s' = (apply_pending x r it codec clock available s).1 in
        ((pending : List (Migration r.Db)) × ((get_pending_migrations x r it codec available s).0
            ≡ ok pending)
          × (versions ≡ versions_of x r it codec pending)
          × (n ≡ length versions))
        × (get_pending_migrations x r it codec available s' ≡ (ok [], s'))
        × IsConsistent x r it codec s'
  unfolding apply_pending get_pending_migrations
  get_pending_migrations-apply_pending clock available s n versions marks consistent h =
      let (applied, ran, inside, outside) = in_list s consistent in
      let pending = not_in x r it codec applied available in
      let whole : apply_pending x r it codec clock available s
          ≡ apply_some x r it codec clock pending s =
        rw (ran, apply_pending) refl in
      let (all, listed, counted) =
        apply_some-AllApplied clock pending s n versions
          (of_pending (λ m. KeepsMarks x r it codec m.up) applied available marks) consistent
          (ap (λ p. p.0) (sym whole) ∙ h) in
      let s' = (apply_some x r it codec clock pending s).1 in
      let (applied', ran', inside', _) = in_list s' all.consistent in
      let done =
        pending_or_done (λ m. IsApplied x r it codec m.version s') applied available all.each
          (λ m e. all.stays m.version (outside m.version e)) in
      let none_left = not_in-none applied' available (
        weaken {P = λ m. IsApplied x r it codec m.version s'} available (λ m a. inside' m.version a)
          done) in
      (
        (pending, rw (ran, get_pending_migrations) refl, listed, counted),
        rw (whole, ran', none_left) refl,
        rw whole all.consistent,
      )

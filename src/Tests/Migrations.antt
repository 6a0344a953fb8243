-- ===== src/Tests/Migrations.antt =====
-- Migrations.
use goud_chain.Prelude.{
  ℕ, ◌==◌, ℤ, pos, negsuc, String, str_eq, eq_iff, [], ◌∷◌, List, length, Option, none, some, Bool,
  true, false, ◌&&◌, Bool-cases, if◌then◌else◌, inl, inr, ◌≡◌, refl, sym, ap, arith,
}
use goud_chain.Errors.{ok, Fallible, inr_injective}
use goud_chain.Crypto.Externals.{Externals, Bytes, as_bytes}
use goud_chain.Storage.Codec.{Codec, IsReadBack}
use goud_chain.Storage.Migration.{
  MigrationMetadata, Migration, validate_migration_version, check_ranges,
}
use goud_chain.Storage.MigrationStore.{
  migration_current_schema, is_applied, mark_applied, write_batch, get_applied_migrations,
  has_version, read_entries, mark_unapplied,
}
use goud_chain.Storage.MigrationStore.Scan.{
  IsConsistent, none_some, is_applied-get_applied_migrations,
}
use goud_chain.Storage.MigrationRunner.{
  apply_migration, rollback_migration, apply_all, apply_pending, get_pending_migrations,
  versions_of,
}
use goud_chain.Storage.MigrationRunner.Pending.{get_pending_migrations-apply_pending}
use goud_chain.Storage.MigrationRunner.Rollback.{bytes_of}
use goud_chain.Storage.MigrationRunner.Latest.{IsLatestApplied, rollback_migration_lem}
use goud_chain.Tests.Toy.{crates}
use goud_chain.Tests.Marks.{Marks, marks, marks_laws, mark_iter, mark_iter_laws, version, first_key}

abbrev migration : Migration Marks
migration = record {
  version = version;
  description = "d";
  up = λ db. (ok tt, db);
  down = λ db. (ok tt, db);
  checksum = "";
}

-- One record has an encoding, that of the migration at time 7.
abbrev at_seven : MigrationMetadata
at_seven = record { version = version; description = "d"; applied_at = pos 7; checksum = "" }

abbrev is_seven : ℤ → Bool
is_seven (pos n) = n == 7
is_seven (negsuc n) = false

abbrev is_at_seven : MigrationMetadata → Bool
is_at_seven md =
    str_eq md.version version
    && (str_eq md.description "d" && (is_seven md.applied_at && str_eq md.checksum ""))

abbrev codec : Codec MigrationMetadata
codec = record {
  serialize = λ md. if is_at_seven md then inr [] else inl "no encoding";
  deserialize = λ bytes. inr at_seven;
}

seven : (t : ℤ) → is_seven t ≡ true → pos 7 ≡ t
seven (pos n) h = ap pos (ground arith)
seven (negsuc n) h = cc

at_seven_same : (md : MigrationMetadata) → is_at_seven md ≡ true → at_seven ≡ md
at_seven_same md h =
    let p0 : version ≡ md.version = ground (arith, eq_iff md.version version) in
    let p1 : "d" ≡ md.description = ground (arith, eq_iff md.description "d") in
    let s2 : is_seven md.applied_at ≡ true = ground arith in
    let p3 : "" ≡ md.checksum = ground (arith, eq_iff md.checksum "") in
    λ i. record {
      version = p0 i;
      description = p1 i;
      applied_at = seven md.applied_at s2 i;
      checksum = p3 i;
    }

reads_back : IsReadBack codec
reads_back md bytes h = elim (Bool-cases (is_at_seven md)) [
  | inl e ↦ ap inr (at_seven_same md e)
  | inr e ↦ let wrong : Path (Fallible Bytes) (inl "no encoding") (inr bytes) = rw e at h in cc
]

abbrev utf8_crates : Externals
utf8_crates = record crates { from_utf8 = λ bytes. inr version }

abbrev fresh : Marks
fresh = (none, none)

abbrev marked : Marks
marked = (some [], some (as_bytes version))

valid : validate_migration_version version ≡ ok tt
unfolding validate_migration_version check_ranges as_bytes
valid = refl

applied_once : (apply_migration utf8_crates marks mark_iter codec (pos 7) migration fresh).0 ≡ ok tt
unfolding apply_migration is_applied mark_applied write_batch
applied_once = rw valid refl

fresh-IsConsistent : IsConsistent utf8_crates marks mark_iter codec fresh
fresh-IsConsistent k v g starts = elim (Bool-cases (str_eq first_key k)) [
  | inl e ↦
      let wrong : Path (Fallible (Option Bytes)) (inr none) (inr (some v)) = rw e at g in
      absurd (none_some (inr_injective wrong))
  | inr e ↦ elim (Bool-cases (str_eq migration_current_schema k)) [
    | inl f ↦
        let wrong : Path (Fallible (Option Bytes)) (inr none) (inr (some v)) = rw (e, f) at g in
        absurd (none_some (inr_injective wrong))
    | inr f ↦
        let wrong : Path (Fallible (Option Bytes)) (inr none) (inr (some v)) = rw (e, f) at g in
        absurd (none_some (inr_injective wrong))
  ]
]

marked-IsConsistent : IsConsistent utf8_crates marks mark_iter codec marked
marked-IsConsistent k v g starts = elim (Bool-cases (str_eq first_key k)) [
  | inl e ↦ (at_seven, refl, sym ((eq_iff first_key k).0 e))
  | inr e ↦ elim (Bool-cases (str_eq migration_current_schema k)) [
    | inl f ↦
        let wrong : false ≡ true = rw (sym ((eq_iff migration_current_schema k).0 f)) at starts in
        cc
    | inr f ↦
        let wrong : Path (Fallible (Option Bytes)) (inr none) (inr (some v)) = rw (e, f) at g in
        absurd (none_some (inr_injective wrong))
  ]
]

is_applied-get_applied_migrations_example :
    (ms : List MigrationMetadata) × (get_applied_migrations utf8_crates marks mark_iter codec marked
      ≡ (ok ms, marked))
    × ((v : String)
        → is_applied utf8_crates marks mark_iter codec v marked ≡ (ok (has_version v ms), marked))
is_applied-get_applied_migrations_example =
    is_applied-get_applied_migrations utf8_crates marks mark_iter codec mark_iter_laws marked
      marked-IsConsistent

rolled_back : (rollback_migration utf8_crates marks mark_iter codec migration marked).0 ≡ ok tt
unfolding rollback_migration is_applied mark_unapplied get_applied_migrations read_entries
    write_batch
rolled_back = refl

rollback_migration_lem_example :
    let s' = (rollback_migration utf8_crates marks mark_iter codec migration marked).1 in
    (is_applied utf8_crates marks mark_iter codec version s' ≡ (ok false, s'))
    × ((v : String)
        → str_eq version v ≡ false
        → (is_applied utf8_crates marks mark_iter codec v s').0
          ≡ (is_applied utf8_crates marks mark_iter codec v marked).0)
    × ((latest : Option String) × (marks.get s' migration_current_schema ≡ inr (bytes_of latest))
        × IsLatestApplied utf8_crates marks mark_iter codec latest s')
rollback_migration_lem_example =
    rollback_migration_lem utf8_crates marks mark_iter codec marks_laws mark_iter_laws migration
      marked marked-IsConsistent (λ db k starts. refl) rolled_back

abbrev clock : ℕ → ℤ
clock i = pos 7

pending_once :
    (apply_pending utf8_crates marks mark_iter codec clock (migration ∷ []) fresh).0
    ≡ ok (1, version ∷ [])
unfolding apply_pending get_pending_migrations get_applied_migrations read_entries apply_all
pending_once = rw applied_once refl

get_pending_migrations-apply_pending_example :
    let s' = (apply_pending utf8_crates marks mark_iter codec clock (migration ∷ []) fresh).1 in
    ((pending : List (Migration Marks)) × ((get_pending_migrations utf8_crates marks mark_iter codec
          (migration ∷ [])
          fresh).0
        ≡ ok pending)
      × (version ∷ [] ≡ versions_of utf8_crates marks mark_iter codec pending)
      × (1 ≡ length (version ∷ [])))
    × (get_pending_migrations utf8_crates marks mark_iter codec (migration ∷ []) s' ≡ (ok [], s'))
    × IsConsistent utf8_crates marks mark_iter codec s'
get_pending_migrations-apply_pending_example =
    get_pending_migrations-apply_pending utf8_crates marks mark_iter codec marks_laws mark_iter_laws
      reads_back clock (migration ∷ []) fresh 1 (version ∷ []) (λ db k starts. refl, tt)
      fresh-IsConsistent pending_once

-- ===== src/Storage/MigrationStore/Scan.antt =====
-- What `get_applied_migrations` of src/storage/migration_store.rs finds.
use text.Mathlib.Text.{starts_with}
use text.Mathlib.TextLemmas.{append_cancel_left}
use goud_chain.Prelude.{
  String, str_eq, eq_iff, str_lt, List, [], ◌∷◌, map, any, All, Option, none, some, Bool, true,
  false, Bool-cases, if◌then◌else◌, inl, inr, ◌≡◌, refl, sym, ap, ◌∙◌, ◌↔◌, starts_with-between,
  starts_with-append, str_lt-append,
}
use goud_chain.Errors.{ok, inr_injective}
use goud_chain.Crypto.Externals.{Externals, Bytes}
use goud_chain.Storage.Codec.{Codec}
use goud_chain.Storage.RocksDb.{
  listed_later, RocksDb, RocksIter, RocksIterLaws, IsListed, IsOrdered,
}
use goud_chain.Storage.Migration.{MigrationMetadata}
use goud_chain.Storage.MigrationStore.{
  migration_applied_prefix, applied_key, has_version, insert_by_version, sort_by_version,
  read_entries, get_applied_migrations, is_applied, is_some,
}

swapped :
    (a b c : Bool)
    → (if a then true else if b then true else c) ≡ (if b then true else if a then true else c)
swapped true true c = refl
swapped true false c = refl
swapped false true c = refl
swapped false false c = refl

any-insert_by_version :
    (test : MigrationMetadata → Bool) (m : MigrationMetadata) (ms : List MigrationMetadata)
    → any test (insert_by_version m ms) ≡ any test (m ∷ ms)
any-insert_by_version test m [] = refl
any-insert_by_version test m (n ∷ ns) = elim (Bool-cases (str_lt n.version m.version)) [
  | inl e ↦
      let earlier = any-insert_by_version test m ns in
      rw (e, earlier) (swapped (test n) (test m) (any test ns))
  | inr e ↦ rw e refl
]

any-sort_by_version :
    (test : MigrationMetadata → Bool) (ms : List MigrationMetadata)
    → any test (sort_by_version ms) ≡ any test ms
any-sort_by_version test [] = refl
any-sort_by_version test (m ∷ ms) =
    any-insert_by_version test m (sort_by_version ms)
    ∙ ap (λ b. if test m then true else b) (any-sort_by_version test ms)

-- The entries under the prefix are records of migrations, each under the key of its version.
abbrev pub IsRecord : Codec MigrationMetadata → String × Bytes → Type 0
IsRecord codec (k, v) =
    starts_with k migration_applied_prefix ≡ true
    → (md : MigrationMetadata) × (codec.deserialize v ≡ inr md) × (k ≡ applied_key md.version)

-- A migration with the version is among the entries.
abbrev IsKept : String → List (String × Bytes) → Type 0
IsKept version es = (v : Bytes) × IsListed (applied_key version) v es

either : (b : Bool) → (if b then true else true) ≡ true
either true = refl
either false = refl

pub applied_key_injective : (a b : String) → applied_key a ≡ applied_key b → a ≡ b
applied_key_injective a b h = append_cancel_left "migration:applied:" a b h

pub none_some : {v : Bytes} → Path (Option Bytes) none (some v) → ⊥
none_some h = cc

module _ (x : Externals) (r : RocksDb) (it : RocksIter r) (codec : Codec MigrationMetadata) where
  Found : List (String × Bytes) → Type 0
  Found es =
      (ms : List MigrationMetadata) × (read_entries x r it codec (map inr es) ≡ ok ms)
      × ((version : String) → (has_version version ms ≡ true) ↔ IsKept version es)

  extend :
      (k : String) (w : Bytes) (es : List (String × Bytes)) (md : MigrationMetadata)
      → starts_with k migration_applied_prefix ≡ true
      → codec.deserialize w ≡ inr md
      → k ≡ applied_key md.version
      → Found es
      → Found ((k, w) ∷ es)
  unfolding read_entries Found
  extend k w es md starts decoded key (ms, ran, same) = (
    md ∷ ms,
    rw (starts, decoded, ran) refl,
    λ version. (
      λ has. elim (Bool-cases (str_eq md.version version)) [
        | inl e ↦ (w, inl (key ∙ ap applied_key ((eq_iff md.version version).0 e), refl))
        | inr e ↦
            let has_later : has_version version ms ≡ true = rw e at has in
            let (v, l) = (same version).0 has_later in (v, inr l)
      ],
      λ (v, l). elim l [
        | inl (e, _) ↦
            let one = applied_key_injective md.version version (sym key ∙ e) in
            rw ((eq_iff md.version version).1 one) refl
        | inr l1 ↦
            let later : has_version version ms ≡ true = (same version).1 (v, l1) in
            rw later (either (str_eq md.version version))
      ],
    ),
  )

  -- At a key without the prefix the loop ends, and no later key has the prefix.
  end_of_prefix :
      (k : String) (w : Bytes) (es : List (String × Bytes))
      → starts_with k migration_applied_prefix ≡ false
      → str_lt k migration_applied_prefix ≡ false
      → All (λ e. str_lt k e.0 ≡ true) es
      → Found ((k, w) ∷ es)
  unfolding read_entries Found
  end_of_prefix k w es other low later = (
    [],
    rw other refl,
    λ version. (
      λ has. cc,
      λ (v, l). elim l [
        | inl (e, _) ↦
            let starts : starts_with k migration_applied_prefix ≡ true =
              rw e (starts_with-append migration_applied_prefix version) in
            cc
        | inr l1 ↦
            let above = listed_later (applied_key version) v k es later l1 in
            let starts =
              starts_with-between migration_applied_prefix k (applied_key version) low above
                (starts_with-append migration_applied_prefix version) in
            cc
      ],
    ),
  )

  find_entries :
      (es : List (String × Bytes))
      → All (λ e. str_lt e.0 migration_applied_prefix ≡ false) es
      → IsOrdered es
      → All (IsRecord codec) es
      → Found es
  unfolding read_entries Found
  find_entries [] low ordered records = ([], refl, λ version. (λ has. cc, λ (v, l). absurd l))
  find_entries ((k, w) ∷ es) (low, lows) (later, ordered) (one, records) =
      elim (Bool-cases (starts_with k migration_applied_prefix)) [
        | inl e ↦
            let (md, decoded, key) = one e in
            extend k w es md e decoded key (find_entries es lows ordered records)
        | inr e ↦ end_of_prefix k w es e low later
      ]

  -- Every entry of the database under the prefix is a record of a migration.
  abbrev pub IsConsistent : r.Db → Type 0
  IsConsistent db = (k : String) (v : Bytes) → r.get db k ≡ inr (some v) → IsRecord codec (k, v)

  module _ (iter_laws : RocksIterLaws r it) where
    records_of :
        (db : r.Db) (es : List (String × Bytes))
        → IsConsistent db
        → ((k : String) (v : Bytes) → IsListed k v es → r.get db k ≡ inr (some v))
        → All (IsRecord codec) es
    records_of db [] consistent inside = tt
    records_of db ((k, v) ∷ es) consistent inside = (
      consistent k v (inside k v (inl (refl, refl))),
      records_of db es consistent (λ j w l. inside j w (inr l)),
    )

    asked :
        (db : r.Db) (version : String) (ms : List MigrationMetadata) (old : Option Bytes)
        → r.get db (applied_key version) ≡ inr old
        → ((has_version version ms ≡ true)
            ↔ IsKept version (iter_laws.entries db migration_applied_prefix))
        → is_some x r it codec old ≡ has_version version ms
    asked db version ms none g same = elim (Bool-cases (has_version version ms)) [
      | inl e ↦
          let (v, l) = same.0 e in
          let got = iter_laws.listed-get db migration_applied_prefix (applied_key version) v l in
          absurd (none_some (inr_injective (sym g ∙ got)))
      | inr e ↦ sym e
    ]
    asked db version ms (some v) g same = sym (
        same.1 (
          v,
          iter_laws.get-listed db migration_applied_prefix (applied_key version) v g
              (str_lt-append migration_applied_prefix version),
        ))

    -- The two ways to ask whether a migration has been applied agree: over a database in which
    -- every entry under the prefix is a record of a migration under the key of its version, and
    -- whose reads do not fail, `get_applied_migrations` gives a list, `is_applied` gives true for
    -- the versions in that list and false for all others, and neither changes the database.
    pub is_applied-get_applied_migrations :
        (db : r.Db)
        → IsConsistent db
        → (ms : List MigrationMetadata) × (get_applied_migrations x r it codec db ≡ (ok ms, db))
          × ((version : String)
              → is_applied x r it codec version db ≡ (ok (has_version version ms), db))
    unfolding get_applied_migrations is_applied Found
    is_applied-get_applied_migrations db consistent =
        let p = migration_applied_prefix in
        let (ms, ran, same) =
          find_entries (iter_laws.entries db p) (iter_laws.from_prefix db p)
            (iter_laws.ordered db p)
            (records_of db (iter_laws.entries db p) consistent (iter_laws.listed-get db p)) in
        (
          sort_by_version ms,
          rw (iter_laws.iterates db p, ran) refl,
          λ version.
              let (old, g) = iter_laws.get-total db (applied_key version) in
              let sorted = any-sort_by_version (λ m. str_eq m.version version) ms in
              rw (g, asked db version ms old g (same version), sorted) refl,
        )

-- ===== src/Storage/MigrationStore/Sorted.antt =====
-- The order of `get_applied_migrations` and the last of its records (src/storage/migration_store.rs).
use goud_chain.Prelude.{
  String, str_eq, eq_iff, eq_refl, str_lt, str_lt_asym, str_lt_trans_false, List, [], ◌∷◌, All,
  Option, none, some, Bool, true, false, Bool-cases, if◌then◌else◌, inl, inr, ◌≡◌, refl, sym, ap,
  ◌∙◌,
}
use mathlib.Core.Path.{subst}
use goud_chain.Storage.Migration.{MigrationMetadata}
use goud_chain.Storage.MigrationStore.{insert_by_version, sort_by_version, without, has_version}

-- The version of the last record.
abbrev pub latest_version : List MigrationMetadata → Option String
latest_version [] = none
latest_version (m ∷ []) = some m.version
latest_version (m ∷ n ∷ ms) = latest_version (n ∷ ms)

-- No record is older than this version.
abbrev NoneBefore : String → List MigrationMetadata → Type 0
NoneBefore v ms = All (λ m. str_lt m.version v ≡ false) ms

abbrev pub IsSorted : List MigrationMetadata → Type 0
IsSorted [] = Unit
IsSorted (m ∷ ms) = NoneBefore m.version ms × IsSorted ms

-- A version is the greatest of a list's, or there is none.
abbrev pub IsLatest : Option String → List MigrationMetadata → Type 0
IsLatest none ms = (v : String) → has_version v ms ≡ false
IsLatest (some v) ms =
    (has_version v ms ≡ true) × ((w : String) → has_version w ms ≡ true → str_lt v w ≡ false)

str_lt_irrefl : (s : String) → str_lt s s ≡ false
str_lt_irrefl s = elim (Bool-cases (str_lt s s)) [ inl h ↦ str_lt_asym s s h | inr h ↦ h ]

NoneBefore-weaken :
    (v w : String) (ms : List MigrationMetadata)
    → str_lt v w ≡ false
    → NoneBefore v ms
    → NoneBefore w ms
NoneBefore-weaken v w [] h k = tt
NoneBefore-weaken v w (m ∷ ms) h (k, ks) =
    (str_lt_trans_false m.version v w k h, NoneBefore-weaken v w ms h ks)

NoneBefore-insert_by_version :
    (v : String) (m : MigrationMetadata) (ms : List MigrationMetadata)
    → str_lt m.version v ≡ false
    → NoneBefore v ms
    → NoneBefore v (insert_by_version m ms)
NoneBefore-insert_by_version v m [] h k = (h, tt)
NoneBefore-insert_by_version v m (n ∷ ns) h (k, ks) =
    elim (Bool-cases (str_lt n.version m.version)) [
      | inl t ↦ rw t (k, NoneBefore-insert_by_version v m ns h ks)
      | inr t ↦ rw t (h, (k, ks))
    ]

insert_by_version-IsSorted :
    (m : MigrationMetadata) (ms : List MigrationMetadata)
    → IsSorted ms
    → IsSorted (insert_by_version m ms)
insert_by_version-IsSorted m [] h = (tt, tt)
insert_by_version-IsSorted m (n ∷ ns) (h, hs) = elim (Bool-cases (str_lt n.version m.version)) [
  | inl t ↦ rw t (
    NoneBefore-insert_by_version n.version m ns (str_lt_asym n.version m.version t) h,
    insert_by_version-IsSorted m ns hs,
  )
  | inr t ↦ rw t ((t, NoneBefore-weaken n.version m.version ns t h), (h, hs))
]

pub sort_by_version-IsSorted : (ms : List MigrationMetadata) → IsSorted (sort_by_version ms)
sort_by_version-IsSorted [] = tt
sort_by_version-IsSorted (m ∷ ms) =
    insert_by_version-IsSorted m (sort_by_version ms) (sort_by_version-IsSorted ms)

NoneBefore-without :
    (v version : String) (ms : List MigrationMetadata)
    → NoneBefore v ms
    → NoneBefore v (without version ms)
NoneBefore-without v version [] h = tt
NoneBefore-without v version (m ∷ ms) (h, hs) = elim (Bool-cases (str_eq m.version version)) [
  | inl t ↦ rw t (NoneBefore-without v version ms hs)
  | inr t ↦ rw t (h, NoneBefore-without v version ms hs)
]

pub without-IsSorted :
    (version : String) (ms : List MigrationMetadata) → IsSorted ms → IsSorted (without version ms)
without-IsSorted version [] h = tt
without-IsSorted version (m ∷ ms) (h, hs) = elim (Bool-cases (str_eq m.version version)) [
  | inl t ↦ rw t (without-IsSorted version ms hs)
  | inr t ↦ rw t (NoneBefore-without m.version version ms h, without-IsSorted version ms hs)
]

pub has_version-without_self :
    (version : String) (ms : List MigrationMetadata)
    → has_version version (without version ms) ≡ false
has_version-without_self version [] = refl
has_version-without_self version (m ∷ ms) = elim (Bool-cases (str_eq m.version version)) [
  | inl t ↦ rw t (has_version-without_self version ms)
  | inr t ↦ rw (t, t) (has_version-without_self version ms)
]

pub has_version-without :
    (version w : String) (ms : List MigrationMetadata)
    → str_eq version w ≡ false
    → has_version w (without version ms) ≡ has_version w ms
has_version-without version w [] ne = refl
has_version-without version w (m ∷ ms) ne = elim (Bool-cases (str_eq m.version version)) [
  | inl t ↦
      let same = (eq_iff m.version version).0 t in
      rw t (rw (ap (λ v. str_eq v w) same ∙ ne) (has_version-without version w ms ne))
  | inr t ↦
      rw t (ap (λ b. if str_eq m.version w then true else b) (has_version-without version w ms ne))
]

NoneBefore-has_version :
    (v w : String) (ms : List MigrationMetadata)
    → NoneBefore v ms
    → has_version w ms ≡ true
    → str_lt w v ≡ false
NoneBefore-has_version v w [] h k = cc
NoneBefore-has_version v w (m ∷ ms) (h, hs) k = elim (Bool-cases (str_eq m.version w)) [
  | inl t ↦ subst (λ u. str_lt u v ≡ false) ((eq_iff m.version w).0 t) h
  | inr t ↦ NoneBefore-has_version v w ms hs (rw t at k)
]

either : (b : Bool) → (if b then true else true) ≡ true
either true = refl
either false = refl

IsLatest-cons :
    (o : Option String) (m n : MigrationMetadata) (ms : List MigrationMetadata)
    → NoneBefore m.version (n ∷ ms)
    → IsLatest o (n ∷ ms)
    → IsLatest o (m ∷ n ∷ ms)
IsLatest-cons none m n ms h k =
    let found : has_version n.version (n ∷ ms) ≡ true = rw (eq_refl n.version) refl in
    absurd (let e = sym found ∙ k n.version in cc)
IsLatest-cons (some v) m n ms h (here, k) = (
  rw here (either (str_eq m.version v)),
  λ w found. elim (Bool-cases (str_eq m.version w)) [
    | inl t ↦
        subst (λ u. str_lt v u ≡ false) ((eq_iff m.version w).0 t)
          (NoneBefore-has_version m.version v (n ∷ ms) h here)
    | inr t ↦ k w (rw t at found)
  ],
)

pub latest_version-IsLatest :
    (ms : List MigrationMetadata) → IsSorted ms → IsLatest (latest_version ms) ms
latest_version-IsLatest [] h = λ v. refl
latest_version-IsLatest (m ∷ []) h = (
  rw (eq_refl m.version) refl,
  λ w found. elim (Bool-cases (str_eq m.version w)) [
    | inl t ↦
        subst (λ u. str_lt m.version u ≡ false) ((eq_iff m.version w).0 t) (str_lt_irrefl m.version)
    | inr t ↦ let missing : false ≡ true = rw t at found in cc
  ],
)
latest_version-IsLatest (m ∷ n ∷ ms) (h, hs) =
    IsLatest-cons (latest_version (n ∷ ms)) m n ms h (latest_version-IsLatest (n ∷ ms) hs)

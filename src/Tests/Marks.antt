-- ===== src/Tests/Marks.antt =====
-- A database with two keys: that of a migration's record and that of the current schema. A write to
-- another key fails, so the reads of the two are all there is.
use goud_chain.Prelude.{
  String, str_eq, eq_iff, str_lt, List, [], ◌∷◌, ◌++◌, map, All, Option, none, some, true, false,
  Bool-cases, if◌then◌else◌, inl, inr, ◌≡◌, refl, sym, ap, ◌∙◌, ◌⊎◌,
}
use goud_chain.Errors.{Fallible, inr_injective}
use goud_chain.Crypto.Externals.{Bytes}
use goud_chain.Storage.RocksDb.{
  RocksDb, RocksDbLaws, RocksIter, RocksIterLaws, WriteOp, put, delete, after, after_all, IsListed,
  IsOrdered,
}
use goud_chain.Storage.MigrationStore.{migration_current_schema}

abbrev pub version : String
version = "20240101000000"

abbrev pub first_key : String
first_key = "migration:applied:20240101000000"

abbrev pub Marks : Type 0
Marks = Option Bytes × Option Bytes

abbrev pub value_at : Marks → String → Option Bytes
value_at d j =
    if str_eq first_key j then d.0 else if str_eq migration_current_schema j then d.1 else none

abbrev key_of : WriteOp → String
key_of (put k v) = k
key_of (delete k) = k

abbrev pub write_marks : Marks → List WriteOp → Fallible Marks
write_marks d [] = inr d
write_marks d (op ∷ ops) =
    let on_first = write_marks (after op first_key d.0, d.1) ops in
    let on_second = write_marks (d.0, after op migration_current_schema d.1) ops in
    if str_eq first_key (key_of op)
    then on_first
    else if str_eq migration_current_schema (key_of op)
    then on_second
    else inl "no such key"

abbrev pub marks : RocksDb
marks = record { Db = Marks; get = λ d k. inr (value_at d k); write = write_marks }

abbrev pub one : String → Option Bytes → String → List (String × Bytes)
one k none p = []
one k (some v) p = if str_lt k p then [] else (k, v) ∷ []

abbrev pub mark_entries : Marks → String → List (String × Bytes)
mark_entries d p = one first_key d.0 p ++ one migration_current_schema d.1 p

abbrev pub mark_iter : RocksIter marks
mark_iter = record { prefix_iterator = λ d p. map inr (mark_entries d p) }

-- The keys are apart.
keys_apart : (j : String) → str_eq migration_current_schema j ≡ true → str_eq first_key j ≡ false
keys_apart j h = let same = (eq_iff migration_current_schema j).0 h in rw (sym same) refl

after_first :
    (op : WriteOp) (d : Marks) (j : String)
    → first_key ≡ key_of op
    → value_at (after op first_key d.0, d.1) j ≡ after op j (value_at d j)
after_first (put k v) d j e =
    rw (sym e) elim (Bool-cases (str_eq first_key j)) [ inl t ↦ rw t refl | inr t ↦ rw t refl ]
after_first (delete k) d j e =
    rw (sym e) elim (Bool-cases (str_eq first_key j)) [ inl t ↦ rw t refl | inr t ↦ rw t refl ]

after_second :
    (op : WriteOp) (d : Marks) (j : String)
    → migration_current_schema ≡ key_of op
    → value_at (d.0, after op migration_current_schema d.1) j ≡ after op j (value_at d j)
after_second (put k v) d j e = rw (sym e) elim (Bool-cases (str_eq migration_current_schema j)) [
  | inl t ↦ rw (t, keys_apart j t) refl
  | inr t ↦ rw t refl
]
after_second (delete k) d j e = rw (sym e) elim (Bool-cases (str_eq migration_current_schema j)) [
  | inl t ↦ rw (t, keys_apart j t) refl
  | inr t ↦ rw t refl
]

write_marks-value :
    (ops : List WriteOp) (d d' : Marks) (j : String)
    → write_marks d ops ≡ inr d'
    → value_at d' j ≡ after_all ops j (value_at d j)
write_marks-value [] d d' j w = ap (λ e. value_at e j) (sym (inr_injective w))
write_marks-value (op ∷ ops) d d' j w = elim (Bool-cases (str_eq first_key (key_of op))) [
  | inl t ↦
      let rest : write_marks (after op first_key d.0, d.1) ops ≡ inr d' = rw t at w in
      write_marks-value ops (after op first_key d.0, d.1) d' j rest
      ∙ ap (after_all ops j) (after_first op d j ((eq_iff first_key (key_of op)).0 t))
  | inr t ↦ elim (Bool-cases (str_eq migration_current_schema (key_of op))) [
    | inl u ↦
        let rest : write_marks (d.0, after op migration_current_schema d.1) ops ≡ inr d' =
          rw (t, u) at w in
        write_marks-value ops (d.0, after op migration_current_schema d.1) d' j rest
        ∙ ap (after_all ops j)
            (after_second op d j ((eq_iff migration_current_schema (key_of op)).0 u))
    | inr u ↦ let wrong : Path (Fallible Marks) (inl "no such key") (inr d') = rw (t, u) at w in cc
  ]
]

pub marks_laws : RocksDbLaws marks
marks_laws = record {
  get-write = λ d d' ops j old w g.
      ap inr (write_marks-value ops d d' j w ∙ ap (after_all ops j) (inr_injective g));
}

pub one_low :
    (k : String) (o : Option Bytes) (p : String) → All (λ e. str_lt e.0 p ≡ false) (one k o p)
one_low k none p = tt
one_low k (some v) p = elim (Bool-cases (str_lt k p)) [
  | inl t ↦ rw t tt
  | inr t ↦ rw (t, one) (t, tt)
]

low_append :
    (p : String) (es fs : List (String × Bytes))
    → All (λ e. str_lt e.0 p ≡ false) es
    → All (λ e. str_lt e.0 p ≡ false) fs
    → All (λ e. str_lt e.0 p ≡ false) (es ++ fs)
low_append p [] fs h k = k
low_append p (e ∷ es) fs (h, hs) k = (h, low_append p es fs hs k)

pub one-IsOrdered : (k : String) (o : Option Bytes) (p : String) → IsOrdered (one k o p)
one-IsOrdered k none p = tt
one-IsOrdered k (some v) p = elim (Bool-cases (str_lt k p)) [
  | inl t ↦ rw t tt
  | inr t ↦ rw t (tt, tt)
]

first_is_less :
    (o : Option Bytes) (p : String)
    → All (λ e. str_lt first_key e.0 ≡ true) (one migration_current_schema o p)
first_is_less none p = tt
first_is_less (some v) p = elim (Bool-cases (str_lt migration_current_schema p)) [
  | inl t ↦ rw t tt
  | inr t ↦ rw t (refl, tt)
]

entries-IsOrdered : (a b : Option Bytes) (p : String) → IsOrdered (mark_entries (a, b) p)
entries-IsOrdered none b p = one-IsOrdered migration_current_schema b p
entries-IsOrdered (some v) b p = elim (Bool-cases (str_lt first_key p)) [
  | inl t ↦ rw t (one-IsOrdered migration_current_schema b p)
  | inr t ↦ rw t (first_is_less b p, one-IsOrdered migration_current_schema b p)
]

split_entries :
    (k : String) (v : Bytes) (es fs : List (String × Bytes))
    → IsListed k v (es ++ fs)
    → IsListed k v es ⊎ IsListed k v fs
split_entries k v [] fs l = inr l
split_entries k v ((j, w) ∷ es) fs (inl l) = inl (inl l)
split_entries k v ((j, w) ∷ es) fs (inr l) = elim (split_entries k v es fs l) [
  | inl m ↦ inl (inr m)
  | inr m ↦ inr m
]

join_entries :
    (k : String) (v : Bytes) (es fs : List (String × Bytes))
    → IsListed k v es ⊎ IsListed k v fs
    → IsListed k v (es ++ fs)
join_entries k v [] fs (inl l) = absurd l
join_entries k v [] fs (inr l) = l
join_entries k v ((j, w) ∷ es) fs (inl (inl l)) = inl l
join_entries k v ((j, w) ∷ es) fs (inl (inr l)) = inr (join_entries k v es fs (inl l))
join_entries k v ((j, w) ∷ es) fs (inr l) = inr (join_entries k v es fs (inr l))

pub one_found :
    (j : String) (o : Option Bytes) (p k : String) (v : Bytes)
    → IsListed k v (one j o p)
    → (j ≡ k) × (o ≡ some v)
one_found j none p k v l = absurd l
one_found j (some w) p k v l = elim (Bool-cases (str_lt j p)) [
  | inl t ↦ absurd (rw t at l)
  | inr t ↦ here (rw t at l)
]
  where
    here : IsListed k v ((j, w) ∷ []) → (j ≡ k) × (some w ≡ some v)
    here (inl (e, f)) = (e, ap some f)
    here (inr e) = absurd e

pub one_here :
    (j : String) (o : Option Bytes) (p k : String) (v : Bytes)
    → j ≡ k
    → o ≡ some v
    → str_lt k p ≡ false
    → IsListed k v (one j o p)
one_here j o p k v e f low =
    let low' : str_lt j p ≡ false = rw e low in rw (f, low') (inl (e, refl))

value_entry :
    (d : Marks) (p k : String) (v : Bytes)
    → value_at d k ≡ some v
    → str_lt k p ≡ false
    → IsListed k v (mark_entries d p)
value_entry d p k v g low =
    join_entries k v (one first_key d.0 p) (one migration_current_schema d.1 p)
      elim (Bool-cases (str_eq first_key k)) [
        | inl t ↦ inl (one_here first_key d.0 p k v ((eq_iff first_key k).0 t) (rw t at g) low)
        | inr t ↦ inr elim (Bool-cases (str_eq migration_current_schema k)) [
          | inl u ↦
              one_here migration_current_schema d.1 p k v ((eq_iff migration_current_schema k).0 u)
                (rw (t, u) at g) low
          | inr u ↦ let wrong : Path (Option Bytes) none (some v) = rw (t, u) at g in cc
        ]
      ]

entry_value :
    (d : Marks) (p k : String) (v : Bytes) → IsListed k v (mark_entries d p) → value_at d k ≡ some v
entry_value d p k v l =
    elim (split_entries k v (one first_key d.0 p) (one migration_current_schema d.1 p) l) [
      | inl m ↦ let (e, f) = one_found first_key d.0 p k v m in rw (sym e) f
      | inr m ↦ let (e, f) = one_found migration_current_schema d.1 p k v m in rw (sym e) f
    ]

pub mark_iter_laws : RocksIterLaws marks mark_iter
mark_iter_laws = record {
  entries = mark_entries;
  iterates = λ d p. refl;
  from_prefix = λ d p.
      low_append p (one first_key d.0 p) (one migration_current_schema d.1 p)
        (one_low first_key d.0 p) (one_low migration_current_schema d.1 p);
  ordered = λ d p. entries-IsOrdered d.0 d.1 p;
  listed-get = λ d p k v l. ap inr (entry_value d p k v l);
  get-listed = λ d p k v g low. value_entry d p k v (inr_injective g) low;
  get-total = λ d k. (value_at d k, refl);
}

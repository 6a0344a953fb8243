-- ===== src/Tests/Nonces.antt =====
-- A nonce that outlives a cleanup, in a database with one key. A `put` of another key fails.
use goud_chain.Prelude.{
  pos, String, str_eq, eq_iff, List, [], ◌∷◌, map, Option, none, some, Bool, true, false,
  Bool-cases, if◌then◌else◌, inl, inr, ◌≡◌, refl, sym, ap, ◌∙◌, ℕ, arith,
}
use goud_chain.Errors.{Fallible, ok, inr_injective}
use goud_chain.Crypto.Externals.{Bytes}
use goud_chain.Storage.Bytes.{i64_to_be_bytes}
use goud_chain.Storage.RocksDb.{
  RocksDb, RocksDbLaws, RocksIter, RocksIterLaws, WriteOp, put, delete, after, after_all,
}
use goud_chain.Storage.NonceStore.{Nonces, NonceEntry, is_nonce_used, nonce_key}
use goud_chain.Storage.NonceStore.Used.{IsRecorded}
use goud_chain.Storage.NonceStore.Cleanup.{
  cleanup_expired_nonces, is_nonce_used-cleanup_expired_nonces,
}
use goud_chain.Storage.NonceStore.Swept.{cleanup_expired_nonces_removes}
use goud_chain.Tests.Toy.{lru, empty_cache}
use goud_chain.Tests.Laws.{lru_laws}
use goud_chain.Tests.Marks.{one, one_low, one-IsOrdered, one_found, one_here}

abbrev slot : String
slot = "nonce:n"

abbrev held : Option Bytes → String → Option Bytes
held d j = if str_eq slot j then d else none

abbrev touched : WriteOp → String
touched (put k v) = k
touched (delete k) = k

abbrev is_delete : WriteOp → Bool
is_delete (put k v) = false
is_delete (delete k) = true

abbrev write_slot : Option Bytes → List WriteOp → Fallible (Option Bytes)
write_slot d [] = inr d
write_slot d (op ∷ ops) =
    let here = write_slot (after op slot d) ops in
    let elsewhere = write_slot d ops in
    if str_eq slot (touched op) then here else if is_delete op then elsewhere else inl "no such key"

abbrev nonce_disk : RocksDb
nonce_disk = record { Db = Option Bytes; get = λ d k. inr (held d k); write = write_slot }

abbrev nonce_iter : RocksIter nonce_disk
nonce_iter = record { prefix_iterator = λ d p. map inr (one slot d p) }

after_slot :
    (op : WriteOp) (d : Option Bytes) (j : String)
    → slot ≡ touched op
    → held (after op slot d) j ≡ after op j (held d j)
after_slot (put k v) d j e =
    rw (sym e) elim (Bool-cases (str_eq slot j)) [ inl t ↦ rw t refl | inr t ↦ rw t refl ]
after_slot (delete k) d j e =
    rw (sym e) elim (Bool-cases (str_eq slot j)) [ inl t ↦ rw t refl | inr t ↦ rw t refl ]

elsewhere_held :
    (op : WriteOp) (d : Option Bytes) (j : String)
    → str_eq slot (touched op) ≡ false
    → is_delete op ≡ true
    → held d j ≡ after op j (held d j)
elsewhere_held (put k v) d j ne u = cc
elsewhere_held (delete k) d j ne u = elim (Bool-cases (str_eq k j)) [
  | inl t ↦ rw (t, sym (ap (str_eq slot) ((eq_iff k j).0 t)) ∙ ne) refl
  | inr t ↦ rw t refl
]

write_slot-held :
    (ops : List WriteOp) (d d' : Option Bytes) (j : String)
    → write_slot d ops ≡ inr d'
    → held d' j ≡ after_all ops j (held d j)
write_slot-held [] d d' j w = ap (λ e. held e j) (sym (inr_injective w))
write_slot-held (op ∷ ops) d d' j w = elim (Bool-cases (str_eq slot (touched op))) [
  | inl t ↦
      let rest : write_slot (after op slot d) ops ≡ inr d' = rw t at w in
      write_slot-held ops (after op slot d) d' j rest
      ∙ ap (after_all ops j) (after_slot op d j ((eq_iff slot (touched op)).0 t))
  | inr t ↦ elim (Bool-cases (is_delete op)) [
    | inl u ↦
        let rest : write_slot d ops ≡ inr d' = rw (t, u) at w in
        write_slot-held ops d d' j rest ∙ ap (after_all ops j) (elsewhere_held op d j t u)
    | inr u ↦
        let wrong : Path (Fallible (Option Bytes)) (inl "no such key") (inr d') = rw (t, u) at w in
        cc
  ]
]

nonce_disk_laws : RocksDbLaws nonce_disk
nonce_disk_laws = record {
  get-write = λ d d' ops j old w g.
      ap inr (write_slot-held ops d d' j w ∙ ap (after_all ops j) (inr_injective g));
}

nonce_iter_laws : RocksIterLaws nonce_disk nonce_iter
nonce_iter_laws = record {
  entries = λ d p. one slot d p;
  iterates = λ d p. refl;
  from_prefix = λ d p. one_low slot d p;
  ordered = λ d p. one-IsOrdered slot d p;
  listed-get =
      λ d p k v l. let (e, f) = one_found slot d p k v l in ap inr (rw ((eq_iff slot k).1 e) f);
  get-listed = λ d p k v g low. elim (Bool-cases (str_eq slot k)) [
    | inl t ↦ one_here slot d p k v ((eq_iff slot k).0 t) (rw t at (inr_injective g)) low
    | inr t ↦ let wrong : Path (Option Bytes) none (some v) = rw t at (inr_injective g) in cc
  ];
  get-total = λ d k. (held d k, refl);
}

abbrev recorded : Nonces (Option Bytes) (String → Option NonceEntry)
recorded = record { db = some (i64_to_be_bytes (pos 310)); cache = empty_cache }

recorded-IsRecorded : IsRecorded nonce_disk lru nonce_disk_laws lru_laws "n" (pos 310) recorded
recorded-IsRecorded = record { in_db = refl; in_cache = inl refl }

is_nonce_used-cleanup_expired_nonces_example :
    ((m : ℕ) × ((cleanup_expired_nonces nonce_disk lru nonce_iter (pos 100) recorded).0 ≡ ok m))
    × ((is_nonce_used nonce_disk lru "n"
          (pos 200)
          (cleanup_expired_nonces nonce_disk lru nonce_iter (pos 100) recorded).1).0
        ≡ ok true)
is_nonce_used-cleanup_expired_nonces_example =
    is_nonce_used-cleanup_expired_nonces nonce_disk lru nonce_iter nonce_disk_laws "n" (pos 310)
      (pos 100) (omega arith, omega arith) refl lru_laws nonce_iter_laws (pos 200) recorded refl
      recorded-IsRecorded

nonce_disk_deletes :
    (d : Option Bytes) (k : String) → (d' : Option Bytes) × (write_slot d (delete k ∷ []) ≡ inr d')
nonce_disk_deletes d k = elim (Bool-cases (str_eq slot k)) [
  | inl t ↦ (after (delete k) slot d, rw t refl)
  | inr t ↦ (d, rw t refl)
]

cleanup_expired_nonces_removes_example :
    nonce_disk.get
      (cleanup_expired_nonces nonce_disk lru nonce_iter (pos 310) recorded).1.db
      (nonce_key "n")
    ≡ inr none
cleanup_expired_nonces_removes_example =
    cleanup_expired_nonces_removes nonce_disk lru nonce_iter nonce_disk_laws nonce_iter_laws "n"
      (pos 310) (pos 310) (omega arith, omega arith) refl nonce_disk_deletes recorded refl

-- ===== src/Storage/AuditLog/Pages.antt =====
-- The pages of an answer (src/storage/audit_log.rs) are its entries.
use native.Mathlib.Nat.{div-add-mod', mod-lt}
use goud_chain.Prelude.{
  ℕ, zero, suc, ◌+◌, ◌-◌, ◌*◌, ◌/◌, ◌%◌, ◌^◌, ◌≤◌, ◌<◌, ltb, ◌==◌, List, [], ◌++◌, length, take,
  drop, ◌≡◌, refl, sym, ap, ◌∙◌, arith, Bool-cases, inl, inr, le→ltb_false, ltb→lt, not_ltb→le,
  take_all, drop_all, take-add, length-drop, if◌then◌else◌,
}
use goud_chain.Errors.{ok}
use goud_chain.Storage.AuditTypes.{AuditLogEntry}
use goud_chain.Storage.AuditLog.Query.{slice, min, paginate}

-- The number of pages.
abbrev pub pages_in : ℕ → ℕ → ℕ
pages_in total page_size =
    if total % page_size == 0 then total / page_size else total / page_size + 1

pages_enough : (total size : ℕ) → total ≤ pages_in total (suc size) * suc size
pages_enough total size =
    let whole = div-add-mod' total (suc size) in
    let small : total % suc size < suc size = mod-lt total (omega arith) in
    elim (Bool-cases (total % suc size == 0)) [
      | inl t ↦
          let none_left : total % suc size ≡ 0 = ground arith in
          rw t (omega (arith, whole, none_left))
      | inr t ↦ rw t (omega (arith, whole, small))
    ]

module _ {Value : Type 0} where
  -- One page: what follows the earlier pages, cut to the size.
  abbrev pub page_of : List (AuditLogEntry Value) → ℕ → ℕ → List (AuditLogEntry Value)
  page_of entries page_size page = take page_size (drop (page * page_size) entries)

  -- The first pages one after the other.
  abbrev pub first_pages : List (AuditLogEntry Value) → ℕ → ℕ → List (AuditLogEntry Value)
  first_pages entries page_size zero = []
  first_pages entries page_size (suc n) =
      first_pages entries page_size n ++ page_of entries page_size n

  first_pages-take :
      (entries : List (AuditLogEntry Value)) (page_size n : ℕ)
      → first_pages entries page_size n ≡ take (n * page_size) entries
  first_pages-take entries page_size zero =
      let e : 0 ≡ 0 * page_size = omega arith in ap (λ k. take k entries) e
  first_pages-take entries page_size (suc n) =
      let e : n * page_size + page_size ≡ suc n * page_size = omega arith in
      ap (λ t. t ++ page_of entries page_size n) (first_pages-take entries page_size n)
      ∙ sym (take-add (n * page_size) page_size entries)
      ∙ ap (λ k. take k entries) e

  -- The bounds of a page stop at the last entry.
  slice_page :
      (entries : List (AuditLogEntry Value)) (start size : ℕ)
      → start < length entries
      → slice start (min (start + size) (length entries)) entries
        ≡ ok (take size (drop start entries))
  slice_page entries start size h = elim (Bool-cases (ltb (start + size) (length entries))) [
    | inl t ↦
        let inside = ltb→lt (start + size) (length entries) t in
        let width : start + size - start ≡ size = omega arith in
        rw
          (
            t,
            le→ltb_false (start + size) start (omega arith),
            le→ltb_false (length entries) (start + size) (omega arith),
            width,
          )
          refl
    | inr t ↦
        let past = not_ltb→le (start + size) (length entries) t in
        let rest = length-drop start entries in
        rw
          (
            t,
            le→ltb_false (length entries) start (omega arith),
            le→ltb_false (length entries) (length entries) (omega arith),
            take_all (length entries - start) (drop start entries) (omega (arith, rest)),
            take_all size (drop start entries) (omega (arith, rest)),
          )
          refl
  ]

  page_past :
      (entries : List (AuditLogEntry Value)) (start size : ℕ)
      → length entries ≤ start
      → take size (drop start entries) ≡ []
  page_past entries start size h = rw (drop_all start entries h) (take_all size [] (omega arith))

  -- Where the end of a page is below 2^64 and its size is not 0, the answer has the page's entries, their
  -- number in all and the number of pages; and that many pages, one after the other, are the entries.
  pub paginate_lem :
      (entries : List (AuditLogEntry Value)) (page size : ℕ)
      → page * suc size + suc size < 2 ^ 64
      → (paginate entries page (suc size)
          ≡ ok (record {
            logs = page_of entries (suc size) page;
            total = length entries;
            page = page;
            page_size = suc size;
            total_pages = pages_in (length entries) (suc size);
          }))
        × (first_pages entries (suc size) (pages_in (length entries) (suc size)) ≡ entries)
  unfolding paginate
  paginate_lem entries page size b =
      let first : page * suc size % 2 ^ 64 ≡ page * suc size = omega arith in
      let end : (page * suc size + suc size) % 2 ^ 64 ≡ page * suc size + suc size = omega arith in
      (
        elim (Bool-cases (ltb (page * suc size) (length entries))) [
          | inl t ↦
              rw (first, end, t, slice_page entries (page * suc size) (suc size) (ltb→lt _ _ t))
                refl
          | inr t ↦
              rw (first, t, page_past entries (page * suc size) (suc size) (not_ltb→le _ _ t)) refl
        ],
        first_pages-take entries (suc size) (pages_in (length entries) (suc size))
            ∙ take_all _ entries (pages_enough (length entries) size),
      )

-- ===== src/Storage/AuditLog/Select.antt =====
-- The entries of an answer (src/storage/audit_log.rs): those that match, newest first.
use goud_chain.Prelude.{
  ℕ, zero, suc, ==_refl, ◌⊎◌, ℤ, ltb_ℤ, leb_ℤ, ◌≤ℤ◌, List, [], ◌∷◌, All, Bool, true, false, not,
  ◌&&◌, Option, none, some, ◌≡◌, ◌↔◌, refl, sym, ap, ◌∙◌, arith, Bool-cases, inl, inr,
  if◌then◌else◌,
}
use goud_chain.Storage.AuditTypes.{
  AuditEventType, account_created, data_submitted, data_decrypted, data_listed, account_login,
  event_number, event_eq, AuditLogEntry, AuditLogFilter,
}
use goud_chain.Storage.AuditLog.Query.{
  has_type, is_from, is_until, is_kept, retain, insert_newest, sort_newest, select,
}

number_event : ℕ → AuditEventType
number_event zero = account_created
number_event (suc zero) = data_submitted
number_event (suc (suc zero)) = data_decrypted
number_event (suc (suc (suc zero))) = data_listed
number_event (suc (suc (suc (suc n)))) = account_login

number_event-event_number : (e : AuditEventType) → number_event (event_number e) ≡ e
unfolding number_event
number_event-event_number account_created = refl
number_event-event_number data_submitted = refl
number_event-event_number data_decrypted = refl
number_event-event_number data_listed = refl
number_event-event_number account_login = refl

event_eq-eq : (a b : AuditEventType) → event_eq a b ≡ true → a ≡ b
event_eq-eq a b h =
    let same : event_number a ≡ event_number b = ground arith in
    sym (number_event-event_number a) ∙ ap number_event same ∙ number_event-event_number b

-- What a bound that may be missing asks.
abbrev pub IsMet : {A : Type 0} → Option A → (A → Type 0) → Type 0
IsMet none P = Unit
IsMet (some a) P = P a

-- The entry fits all parts of the filter.
abbrev pub Matches : {Value : Type 0} → AuditLogFilter → AuditLogEntry Value → Type 0
Matches filter e =
    ((filter.include_invalidated ≡ true) ⊎ (e.invalidated ≡ false))
    × IsMet filter.event_type (λ t. e.event_type ≡ t)
    × IsMet filter.start_ts (λ s. s ≤ℤ e.timestamp)
    × IsMet filter.end_ts (λ u. e.timestamp ≤ℤ u)

has_type_iff :
    (wanted : Option AuditEventType) (event : AuditEventType)
    → (has_type wanted event ≡ true) ↔ IsMet wanted (λ t. event ≡ t)
has_type_iff none event = ((λ h. tt), (λ h. refl))
has_type_iff (some w) event = (event_eq-eq event w, λ e. rw e (==_refl (event_number w)))

is_from_iff :
    (bound : Option ℤ) (time : ℤ) → (is_from bound time ≡ true) ↔ IsMet bound (λ s. s ≤ℤ time)
is_from_iff none time = ((λ h. tt), (λ h. refl))
is_from_iff (some b) time = ((λ h. ground arith), (λ h. ground arith))

is_until_iff :
    (bound : Option ℤ) (time : ℤ) → (is_until bound time ≡ true) ↔ IsMet bound (λ u. time ≤ℤ u)
is_until_iff none time = ((λ h. tt), (λ h. refl))
is_until_iff (some b) time = ((λ h. ground arith), (λ h. ground arith))

-- The early returns of `retain`, over the answers of the tests.
early : Bool → Bool → Bool → Bool → Bool → Bool
early include hidden typed after before =
    if not include && hidden
    then false
    else if not typed
    then false
    else if not after
    then false
    else before

early_iff :
    (include hidden typed after before : Bool)
    → (early include hidden typed after before ≡ true)
      ↔ (((include ≡ true) ⊎ (hidden ≡ false)) × (typed ≡ true) × (after ≡ true) × (before ≡ true))
unfolding early
early_iff true hidden true true before =
    ((λ h. (inl refl, refl, refl, h)), (λ h. let (a, b, c, d) = h in d))
early_iff true hidden true false before = ((λ h. cc), (λ h. let (a, b, c, d) = h in c))
early_iff true hidden false after before = ((λ h. cc), (λ h. let (a, b, c, d) = h in b))
early_iff false false true true before =
    ((λ h. (inr refl, refl, refl, h)), (λ h. let (a, b, c, d) = h in d))
early_iff false false true false before = ((λ h. cc), (λ h. let (a, b, c, d) = h in c))
early_iff false false false after before = ((λ h. cc), (λ h. let (a, b, c, d) = h in b))
early_iff false true typed after before =
    ((λ h. cc), (λ h. elim (h.0) [ inl e ↦ e | inr e ↦ sym e ]))

module _ {Value : Type 0} where
  abbrev pub IsNewestFirst : List (AuditLogEntry Value) → Type 0
  IsNewestFirst [] = Unit
  IsNewestFirst (e ∷ es) = All (λ f. f.timestamp ≤ℤ e.timestamp) es × IsNewestFirst es

  insert_newest-All :
      (P : AuditLogEntry Value → Type 0) (e : AuditLogEntry Value) (es : List (AuditLogEntry Value))
      → P e
      → All P es
      → All P (insert_newest e es)
  unfolding insert_newest
  insert_newest-All P e [] p a = (p, tt)
  insert_newest-All P e (n ∷ ns) p (q, a) = elim (Bool-cases (ltb_ℤ e.timestamp n.timestamp)) [
    | inl t ↦ rw t (q, insert_newest-All P e ns p a)
    | inr t ↦ rw t (p, (q, a))
  ]

  older-All :
      (a b : ℤ) (es : List (AuditLogEntry Value))
      → a ≤ℤ b
      → All (λ f. f.timestamp ≤ℤ a) es
      → All (λ f. f.timestamp ≤ℤ b) es
  older-All a b [] h k = tt
  older-All a b (e ∷ es) h (k, ks) = (ground arith, older-All a b es h ks)

  insert_newest-IsNewestFirst :
      (e : AuditLogEntry Value) (es : List (AuditLogEntry Value))
      → IsNewestFirst es
      → IsNewestFirst (insert_newest e es)
  unfolding insert_newest
  insert_newest-IsNewestFirst e [] h = (tt, tt)
  insert_newest-IsNewestFirst e (n ∷ ns) (h, hs) =
      elim (Bool-cases (ltb_ℤ e.timestamp n.timestamp)) [
        | inl t ↦ rw t (
          insert_newest-All (λ f. f.timestamp ≤ℤ n.timestamp) e ns (ground arith) h,
          insert_newest-IsNewestFirst e ns hs,
        )
        | inr t ↦
            let newer : n.timestamp ≤ℤ e.timestamp = ground arith in
            rw t ((newer, older-All n.timestamp e.timestamp ns newer h), (h, hs))
      ]

  sort_newest-IsNewestFirst : (es : List (AuditLogEntry Value)) → IsNewestFirst (sort_newest es)
  unfolding sort_newest
  sort_newest-IsNewestFirst [] = tt
  sort_newest-IsNewestFirst (e ∷ es) =
      insert_newest-IsNewestFirst e (sort_newest es) (sort_newest-IsNewestFirst es)

  -- The entries of one time, in their order.
  abbrev pub is_at : ℤ → AuditLogEntry Value → Bool
  is_at t e = leb_ℤ e.timestamp t && leb_ℤ t e.timestamp

  abbrev pub at_time : ℤ → List (AuditLogEntry Value) → List (AuditLogEntry Value)
  at_time t es = retain (is_at t) es

  at_time-insert_newest :
      (t : ℤ) (e : AuditLogEntry Value) (es : List (AuditLogEntry Value))
      → at_time t (insert_newest e es) ≡ at_time t (e ∷ es)
  unfolding insert_newest retain
  at_time-insert_newest t e [] = refl
  at_time-insert_newest t e (n ∷ ns) = elim (Bool-cases (ltb_ℤ e.timestamp n.timestamp)) [
    | inl u ↦ elim (Bool-cases (is_at t e)) [
      | inl v ↦
          let apart : is_at t n ≡ false = ground arith in
          rw (u, apart, at_time-insert_newest t e ns) refl
      | inr v ↦ elim (Bool-cases (is_at t n)) [
        | inl w ↦ rw (u, v, w, at_time-insert_newest t e ns, v) refl
        | inr w ↦ rw (u, v, w, at_time-insert_newest t e ns, v) refl
      ]
    ]
    | inr u ↦ rw u refl
  ]

  at_time-sort_newest :
      (t : ℤ) (es : List (AuditLogEntry Value)) → at_time t (sort_newest es) ≡ at_time t es
  unfolding sort_newest retain
  at_time-sort_newest t [] = refl
  at_time-sort_newest t (e ∷ es) =
      at_time-insert_newest t e (sort_newest es) ∙ rw (at_time-sort_newest t es) refl

  is_kept_iff :
      (filter : AuditLogFilter) (e : AuditLogEntry Value)
      → (is_kept filter e ≡ true) ↔ Matches filter e
  unfolding is_kept early
  is_kept_iff filter e =
      let (t1, t2) = has_type_iff filter.event_type e.event_type in
      let (f1, f2) = is_from_iff filter.start_ts e.timestamp in
      let (u1, u2) = is_until_iff filter.end_ts e.timestamp in
      let (k1, k2) =
        early_iff filter.include_invalidated e.invalidated (has_type filter.event_type e.event_type)
          (is_from filter.start_ts e.timestamp) (is_until filter.end_ts e.timestamp) in
      (
        (λ h. let (a, b, c, d) = k1 h in (a, t1 b, f1 c, u1 d)),
        (λ h. let (a, b, c, d) = h in k2 (a, t2 b, f2 c, u2 d)),
      )

  -- An answer's entries stand in the order of their times, the newest first; those of one time are the
  -- ones of that time that are kept, in the order in which they were found; and an entry is kept just if
  -- it fits the filter: it is not invalidated or such entries are wanted, it has the type that is asked
  -- for, and it is not before the start or after the end, the bounds included.
  pub select_lem :
      (filter : AuditLogFilter) (found : List (AuditLogEntry Value)) (t : ℤ)
      (e : AuditLogEntry Value)
      → IsNewestFirst (select filter found)
        × (at_time t (select filter found) ≡ at_time t (retain (is_kept filter) found))
        × ((is_kept filter e ≡ true) ↔ Matches filter e)
  unfolding select
  select_lem filter found t e = (
    sort_newest-IsNewestFirst (retain (is_kept filter) found),
    at_time-sort_newest t (retain (is_kept filter) found),
    is_kept_iff filter e,
  )

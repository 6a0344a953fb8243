-- ===== src/Api/RequestSignature/Replay.antt =====
-- Replays of signed requests (src/api/request_signature.rs).
use goud_chain.Prelude.{
  ℕ, ℤ, pos, ◌+ℤ◌, ltb_ℤ, String, str_eq, eq_iff, true, false, Bool-cases, not, List, [], ◌∷◌,
  Option, inl, inr, ◌≡◌, refl, sym, ap, ◌∙◌, arith, All, ◌⊎◌,
}
use goud_chain.Errors.{ok, err, Fallible, guard, guard-eq-ok, authentication_failed}
use goud_chain.Crypto.Externals.{Externals}
use goud_chain.Storage.Action as Action
use goud_chain.Storage.Action.{Keeps, next-eq-ok, >>=-Keeps}
use goud_chain.Storage.Bytes.{IsI64}
use goud_chain.Storage.RocksDb.{RocksDb, RocksDbLaws}
use goud_chain.Storage.Lru.{LruCache, LruLaws}
use goud_chain.Storage.NonceStore.{
  NonceEntry, NonceStore, nonce_key, nonce_expiration_seconds, is_nonce_used, record_nonce,
}
use goud_chain.Storage.NonceStore.Used.{
  IsRecorded, is_nonce_used-Readable, record_nonce-IsRecorded, is_nonce_used-before,
  is_nonce_used-after,
}
use goud_chain.Storage.NonceStore.Others.{is_nonce_used_keeps, record_nonce_keeps}
use goud_chain.Api.RequestSignature.{
  SignedRequest, Clock, validate_request_timestamp, authentic, validate,
}

validate_request_timestamp-cases :
    (now timestamp : ℤ)
    → (validate_request_timestamp now timestamp ≡ ok tt)
      ⊎ (validate_request_timestamp now timestamp ≡ err authentication_failed)
unfolding validate_request_timestamp
validate_request_timestamp-cases now timestamp = ground arith

module _ (x : Externals) (r : RocksDb) (c : LruCache NonceEntry) {T : Type 0}
    (to_json : T → Fallible String) (db_laws : RocksDbLaws r) (lru_laws : LruLaws c) where
  abbrev Recorded : String → ℤ → NonceStore r c → Type 0
  Recorded nonce expiry s = IsRecorded r c db_laws lru_laws nonce expiry s

  -- A request with a recorded nonce is rejected, and the record stays.
  validate_used :
      (nonce : String) (expiry : ℤ) (t : Clock) (q : SignedRequest T) (s : NonceStore r c)
      → IsI64 expiry
      → Recorded nonce expiry s
      → ltb_ℤ t.on_check expiry ≡ true
      → q.nonce ≡ nonce
      → ((validate x r c to_json t q s).0 ≡ err authentication_failed)
        × Recorded nonce expiry (validate x r c to_json t q s).1
  unfolding validate
  validate_used nonce expiry t q s i h l e =
      let (u, k) = is_nonce_used-before r c db_laws lru_laws nonce expiry t.on_check s i h l in
      elim (validate_request_timestamp-cases t.on_timestamp q.timestamp) [
        | inl v ↦ rw (v, e, u) (refl, k)
        | inr v ↦ rw v (refl, h)
      ]

  validate_other :
      (nonce : String) (expiry : ℤ) (t : Clock) (q : SignedRequest T)
      → str_eq q.nonce nonce ≡ false
      → Keeps (Recorded nonce expiry) (validate x r c to_json t q)
  unfolding validate
  validate_other nonce expiry t q ne =
      let P = Recorded nonce expiry in
      >>=-Keeps P (Action.lift (validate_request_timestamp t.on_timestamp q.timestamp)) _ (λ s h. h)
        (λ _.
          >>=-Keeps P (is_nonce_used r c q.nonce t.on_check) _
            (is_nonce_used_keeps r c db_laws lru_laws nonce q.nonce ne expiry t.on_check)
            (λ used.
              >>=-Keeps P (Action.lift (guard (not used) authentication_failed)) _ (λ s h. h)
                (λ _.
                  >>=-Keeps P (Action.lift (authentic x r c to_json q)) _ (λ s h. h)
                    (λ _.
                      record_nonce_keeps r c db_laws lru_laws nonce q.nonce ne expiry
                        t.on_record))))

  validate-Keeps :
      (nonce : String) (expiry : ℤ) (t : Clock) (q : SignedRequest T)
      → IsI64 expiry
      → ltb_ℤ t.on_check expiry ≡ true
      → Keeps (Recorded nonce expiry) (validate x r c to_json t q)
  validate-Keeps nonce expiry t q i l s h = elim (Bool-cases (str_eq q.nonce nonce)) [
    | inl e ↦ (validate_used nonce expiry t q s i h l ((eq_iff q.nonce nonce).0 e)).1
    | inr e ↦ validate_other nonce expiry t q e s h
  ]

  -- The validation of requests one after the other.
  abbrev pub after_requests : List (Clock × SignedRequest T) → NonceStore r c → NonceStore r c
  after_requests [] s = s
  after_requests ((t, q) ∷ rest) s = after_requests rest (validate x r c to_json t q s).1

  after_requests_keeps :
      (nonce : String) (expiry : ℤ) (requests : List (Clock × SignedRequest T)) (s : NonceStore r c)
      → IsI64 expiry
      → All (λ request. ltb_ℤ request.0.on_check expiry ≡ true) requests
      → Recorded nonce expiry s
      → Recorded nonce expiry (after_requests requests s)
  after_requests_keeps nonce expiry [] s i l h = h
  after_requests_keeps nonce expiry ((t, q) ∷ rest) s i l h =
      after_requests_keeps nonce expiry rest (validate x r c to_json t q s).1 i l.1
        (validate-Keeps nonce expiry t q i l.0 s h)

  -- An accepted request recorded its nonce.
  validate_ok :
      (t : Clock) (q : SignedRequest T) (s : NonceStore r c)
      → (validate x r c to_json t q s).0 ≡ ok tt
      → let s' = (is_nonce_used r c q.nonce t.on_check s).1 in
        (validate x r c to_json t q s ≡ record_nonce r c q.nonce t.on_record s')
        × ((is_nonce_used r c q.nonce t.on_check s).0 ≡ ok false)
        × (authentic x r c to_json q ≡ ok tt)
  unfolding validate
  validate_ok t q s h =
      let checked = is_nonce_used r c q.nonce t.on_check s in
      let (_, _, e₁) = next-eq-ok (validate_request_timestamp t.on_timestamp q.timestamp, s) _ h in
      let h₁ = ap (λ p. p.0) (sym e₁) ∙ h in
      let (used, u, e₂) = next-eq-ok checked _ h₁ in
      let h₂ = ap (λ p. p.0) (sym e₂) ∙ h₁ in
      let (_, g, e₃) = next-eq-ok (guard (not used) authentication_failed, checked.1) _ h₂ in
      let h₃ = ap (λ p. p.0) (sym e₃) ∙ h₂ in
      let (_, a, e₄) = next-eq-ok (authentic x r c to_json q, checked.1) _ h₃ in
      let unused = guard-eq-ok (not used) authentication_failed g in
      (e₁ ∙ e₂ ∙ e₃ ∙ e₄, ground (arith, u), a)

  validate-Recorded :
      (t : Clock) (q : SignedRequest T) (s : NonceStore r c) (old : Option (List ℕ))
      → r.get s.db (nonce_key q.nonce) ≡ inr old
      → (validate x r c to_json t q s).0 ≡ ok tt
      → Recorded q.nonce
          (t.on_record +ℤ pos nonce_expiration_seconds)
          (validate x r c to_json t q s).1
  validate-Recorded t q s old g h =
      let (same, _, _) = validate_ok t q s h in
      let (older, f) = is_nonce_used-Readable r c db_laws lru_laws q.nonce t.on_check s (old, g) in
      rw same (
        record_nonce-IsRecorded r c db_laws lru_laws q.nonce t.on_record
          (is_nonce_used r c q.nonce t.on_check s).1 older f (ap (λ p. p.0) (sym same) ∙ h))

  -- After a request that was accepted, whatever requests are validated next, every later one with its
  -- nonce is rejected with `authentication_failed`, as long as the checks read a clock before the record's
  -- expiry, 300 seconds after the recording. The database is readable under the nonce at first, and the
  -- expiry fits an `i64`.
  pub validate_replay :
      (first : Clock) (q : SignedRequest T) (s : NonceStore r c) (old : Option (List ℕ))
      (between : List (Clock × SignedRequest T)) (t : Clock) (replay : SignedRequest T)
      → r.get s.db (nonce_key q.nonce) ≡ inr old
      → (validate x r c to_json first q s).0 ≡ ok tt
      → IsI64 (first.on_record +ℤ pos nonce_expiration_seconds)
      → All
          (λ request.
            ltb_ℤ request.0.on_check (first.on_record +ℤ pos nonce_expiration_seconds) ≡ true)
          between
      → ltb_ℤ t.on_check (first.on_record +ℤ pos nonce_expiration_seconds) ≡ true
      → replay.nonce ≡ q.nonce
      → (validate x r c to_json t replay
          (after_requests between (validate x r c to_json first q s).1)).0
        ≡ err authentication_failed
  validate_replay first q s old between t replay g h i l k e =
      let expiry = first.on_record +ℤ pos nonce_expiration_seconds in
      let kept =
        after_requests_keeps q.nonce expiry between (validate x r c to_json first q s).1 i l
          (validate-Recorded first q s old g h) in
      (validate_used q.nonce expiry t replay _ i kept k e).0

  validate_unused :
      (t : Clock) (q : SignedRequest T) (s : NonceStore r c)
      → validate_request_timestamp t.on_timestamp q.timestamp ≡ ok tt
      → (is_nonce_used r c q.nonce t.on_check s).0 ≡ ok false
      → authentic x r c to_json q ≡ ok tt
      → (record_nonce r c q.nonce t.on_record (is_nonce_used r c q.nonce t.on_check s).1).0 ≡ ok tt
      → (validate x r c to_json t q s).0 ≡ ok tt
  unfolding validate
  validate_unused t q s v u a w = rw (v, u, a) w

  -- An accepted request that is validated again when the record of its nonce has expired, while its
  -- timestamp still lies in the window, is accepted again, if the recording succeeds. The database is
  -- readable under the nonce at first, and the expiry fits an `i64`.
  pub validate_replay_expired :
      (first : Clock) (q : SignedRequest T) (s : NonceStore r c) (old : Option (List ℕ)) (t : Clock)
      → r.get s.db (nonce_key q.nonce) ≡ inr old
      → (validate x r c to_json first q s).0 ≡ ok tt
      → IsI64 (first.on_record +ℤ pos nonce_expiration_seconds)
      → ltb_ℤ t.on_check (first.on_record +ℤ pos nonce_expiration_seconds) ≡ false
      → validate_request_timestamp t.on_timestamp q.timestamp ≡ ok tt
      → (record_nonce r c q.nonce t.on_record
          (is_nonce_used r c q.nonce t.on_check (validate x r c to_json first q s).1).1).0
        ≡ ok tt
      → (validate x r c to_json t q (validate x r c to_json first q s).1).0 ≡ ok tt
  validate_replay_expired first q s old t g h i l v w =
      let recorded = validate-Recorded first q s old g h in
      let (_, _, a) = validate_ok first q s h in
      let unused =
        is_nonce_used-after r c db_laws lru_laws q.nonce
          (first.on_record +ℤ pos nonce_expiration_seconds) t.on_check _ i recorded l in
      validate_unused t q (validate x r c to_json first q s).1 v unused a w

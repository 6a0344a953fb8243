-- ===== src/Storage/AuditLog/Collected.antt =====
-- The batches that a flush takes up (src/storage/audit_log.rs).
use goud_chain.Prelude.{
  String, str_eq, eq_refl, StrMap, lookup, insert, List, [], ◌∷◌, ◌++◌, inl, inr, ◌≡◌, refl, sym,
  ap, ◌∙◌, some, Option-cases, Bool-cases, false,
}
use goud_chain.Crypto.Externals.{Bytes}
use goud_chain.Domain.Merkle.{is_empty}
use goud_chain.Storage.AuditTypes.{AuditLogEntry}
use goud_chain.Storage.AuditLog.{AuditLogger, put_down}
use goud_chain.Storage.AuditLog.Flush.{collect_batches}
use goud_chain.Storage.AuditLog.Recorded.{IsIn}

pub lookup-insert :
    {V : Type 0} (k : String) (v : V) (m : StrMap V) → lookup k (insert k v m) ≡ some v
unfolding lookup insert
lookup-insert k v [] = rw (eq_refl k) refl
lookup-insert k v ((j, w) ∷ m) = elim (Bool-cases (str_eq k j)) [
  | inl t ↦ rw (t, eq_refl k) refl
  | inr t ↦ rw (t, t) (lookup-insert k v m)
]

module _ {Value : Type 0} where
  -- A batch with entries whose account has a key is not left out.
  pub IsIn-collect_batches :
      (cache : StrMap Bytes) (drained : List (String × List (AuditLogEntry Value))) (h : String)
      (entries : List (AuditLogEntry Value)) (api_key : Bytes)
      → IsIn (h, entries) drained
      → is_empty entries ≡ false
      → lookup h cache ≡ some api_key
      → IsIn (h, entries, api_key) (collect_batches cache drained)
  unfolding collect_batches
  IsIn-collect_batches cache [] h entries api_key i filled known = absurd i
  IsIn-collect_batches cache ((k, others) ∷ rest) h entries api_key (inl e) filled known =
      let same_hash : k ≡ h = sym (ap (λ p. p.0) e) in
      let same_entries : others ≡ entries = sym (ap (λ p. p.1) e) in
      rw (same_hash, same_entries, filled, known) (inl refl)
  IsIn-collect_batches cache ((k, others) ∷ rest) h entries api_key (inr i) filled known =
      let later = IsIn-collect_batches cache rest h entries api_key i filled known in
      elim (Bool-cases (is_empty others)) [
        | inl t ↦ rw t later
        | inr t ↦ elim (Option-cases (lookup k cache)) [
          | inl u ↦ rw (t, u) later
          | inr (key, u) ↦ rw (t, u) (inr later)
        ]
      ]

  pub cached-put_down :
      (logger : AuditLogger Value) (h : String) (api_key : Bytes) (entry : AuditLogEntry Value)
      → ((k : Bytes) → lookup h logger.api_key_cache ≡ some k → k ≡ api_key)
      → lookup h (put_down logger h api_key entry).api_key_cache ≡ some api_key
  cached-put_down logger h api_key entry coherent =
      elim (Option-cases (lookup h logger.api_key_cache)) [
        | inl u ↦ rw u (lookup-insert h api_key logger.api_key_cache)
        | inr (k, u) ↦ rw u (u ∙ ap some (coherent k u))
      ]

  pub is_empty-concat :
      (es : List (AuditLogEntry Value)) (e : AuditLogEntry Value) → is_empty (es ++ e ∷ []) ≡ false
  is_empty-concat [] e = refl
  is_empty-concat (f ∷ es) e = refl

  pub is_empty-insert :
      (h : String) (es : List (AuditLogEntry Value)) (m : StrMap (List (AuditLogEntry Value)))
      → is_empty (insert h es m) ≡ false
  unfolding insert
  is_empty-insert h es [] = refl
  is_empty-insert h es ((k, fs) ∷ m) = elim (Bool-cases (str_eq h k)) [
    | inl t ↦ rw t refl
    | inr t ↦ rw t refl
  ]

-- ===== src/Api/AuditRoute/Limits.antt =====
-- How much a query for the audit log answers (src/api/routes/audit.rs).
use goud_chain.Prelude.{
  ℕ, zero, suc, ◌+◌, ◌-◌, ◌*◌, ◌%◌, ◌^◌, ◌≤◌, ltb, ℤ, String, unwrap_or, List, [], ◌∷◌, length,
  take, drop, Option, some, ◌≡◌, refl, sym, ap, arith, Bool-cases, inl, inr, if◌then◌else◌, ◌||◌,
}
use goud_chain.Errors.{Result, ok, panic, Fallible, >>=-eq-ok, ok_injective}
use goud_chain.Crypto.Externals.{Externals, Bytes}
use goud_chain.Crypto.Hkdf.{hash_api_key_hex}
use goud_chain.Domain.Types.{Json}
use goud_chain.Domain.Blockchain.{Blockchain}
use goud_chain.Storage.Codec.{Codec}
use goud_chain.Storage.RocksDb.{RocksDb}
use goud_chain.Storage.AuditTypes.{AuditLogEntry, AuditLogResponse}
use goud_chain.Storage.AuditLog.Query.{
  AuditReader, min, slice, div_ceil, paginate, get_audit_block_indexes, query_logs,
}
use goud_chain.Api.Auth.{Secrets, Jwt, AuthMethod, extract_auth_from_headers}
use goud_chain.Api.AuditRoute.{AuditLogQuery, page_size_of, key_of, handle_get_audit_logs}

module _ {Value : Type 0} where
  length-take-le : (n : ℕ) (es : List (AuditLogEntry Value)) → length (take n es) ≤ n
  length-take-le zero es = omega arith
  length-take-le (suc n) [] = omega arith
  length-take-le (suc n) (e ∷ es) = omega (arith, length-take-le n es)

  slice-eq-ok :
      (start end : ℕ) (entries logs : List (AuditLogEntry Value))
      → slice start end entries ≡ ok logs
      → take (end - start) (drop start entries) ≡ logs
  slice-eq-ok start end entries logs h =
      elim (Bool-cases (ltb end start || ltb (length entries) end)) [
        | inl t ↦
            let out : Path (Result (List (AuditLogEntry Value))) panic (ok logs) = rw t at h in cc
        | inr t ↦ ok_injective (rw t at h)
      ]

  slice-le :
      (start size : ℕ) (entries logs : List (AuditLogEntry Value))
      → slice start (min ((start + size) % 2 ^ 64) (length entries)) entries ≡ ok logs
      → length logs ≤ size
  slice-le start size entries logs h =
      let end = min ((start + size) % 2 ^ 64) (length entries) in
      let cut = slice-eq-ok start end entries logs h in
      let short : length logs ≤ end - start =
        rw (sym cut) (length-take-le (end - start) (drop start entries)) in
      let bound : end ≤ start + size = ground arith in omega (arith, short, bound)

  cut_le :
      (entries logs : List (AuditLogEntry Value)) (start size : ℕ)
      → (if ltb start (length entries)
          then slice start (min ((start + size) % 2 ^ 64) (length entries)) entries
          else ok [])
        ≡ ok logs
      → length logs ≤ size
  cut_le entries logs start size h = elim (Bool-cases (ltb start (length entries))) [
    | inl t ↦ slice-le start size entries logs (rw t at h)
    | inr t ↦
        let none_left : [] ≡ logs = ok_injective (rw t at h) in rw (sym none_left) (omega arith)
  ]

  paginate-le :
      (entries : List (AuditLogEntry Value)) (page size : ℕ) (answer : AuditLogResponse Value)
      → paginate entries page size ≡ ok answer
      → length answer.logs ≤ size
  unfolding paginate
  paginate-le entries page size answer h =
      let (pages, counted, h1) = >>=-eq-ok (div_ceil (length entries) size) _ h in
      let start = page * size % 2 ^ 64 in
      let (logs, cut, h2) =
        >>=-eq-ok
          (if ltb start (length entries)
            then slice start (min ((start + size) % 2 ^ 64) (length entries)) entries
            else ok [])
          _ h1 in
      let same = ap (λ a. a.logs) (ok_injective h2) in
      rw (sym same) (cut_le entries logs start size cut)

module _ {Value : Type 0} (x : Externals) (jwt : Jwt) (secrets : Secrets) (j : Json) (r : RocksDb)
    (index_codec : Codec (List ℕ)) (get_encryption_key get_mac_key : Bytes → Bytes → Bytes)
    (reader : AuditReader Value) where
  -- Whatever is asked for, an answer has 100 entries at the most.
  pub length-handle_get_audit_logs :
      (header : Option (Fallible String)) (params : AuditLogQuery) (now : ℤ) (db : r.Db)
      (blockchain : Blockchain) (answer : AuditLogResponse Value)
      → handle_get_audit_logs x jwt secrets j r index_codec get_encryption_key get_mac_key reader
          header params now db blockchain
        ≡ ok answer
      → length answer.logs ≤ 100
  unfolding handle_get_audit_logs query_logs
  length-handle_get_audit_logs header params now db blockchain answer h =
      let (auth, accepted, h1) =
        >>=-eq-ok (extract_auth_from_headers x jwt secrets header now) _ h in
      let (key, opened, h2) =
        >>=-eq-ok (key_of x jwt secrets j r index_codec get_encryption_key get_mac_key reader auth)
          _ h1 in
      let (indexes, read, h3) =
        >>=-eq-ok (get_audit_block_indexes r index_codec db (hash_api_key_hex x key)) _ h2 in
      let bound : page_size_of params ≤ 100 = ground arith in
      omega (arith, bound, paginate-le _ (unwrap_or 0 params.page) (page_size_of params) answer h3)

  -- A request that is authenticated, whose key can be opened and whose index can be read, panics if it
  -- asks for pages of size 0.
  pub handle_get_audit_logs_panics :
      (header : Option (Fallible String)) (params : AuditLogQuery) (now : ℤ) (db : r.Db)
      (blockchain : Blockchain) (auth : AuthMethod) (key : Bytes) (indexes : List ℕ)
      → params.page_size ≡ some 0
      → extract_auth_from_headers x jwt secrets header now ≡ ok auth
      → key_of x jwt secrets j r index_codec get_encryption_key get_mac_key reader auth ≡ ok key
      → get_audit_block_indexes r index_codec db (hash_api_key_hex x key) ≡ ok indexes
      → handle_get_audit_logs x jwt secrets j r index_codec get_encryption_key get_mac_key reader
          header params now db blockchain
        ≡ panic
  unfolding handle_get_audit_logs query_logs paginate
  handle_get_audit_logs_panics header params now db blockchain auth key indexes zero_size accepted
        opened read =
      rw (accepted, opened, read, zero_size) refl

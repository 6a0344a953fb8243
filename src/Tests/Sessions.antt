-- ===== src/Tests/Sessions.antt =====
-- A session, and a query for the audit log in it.
use goud_chain.Prelude.{
  ℕ, ◌==◌, ℤ, pos, negsuc, leb_ℤ, ◌≤◌, ◌+ℤ◌, String, ◌+++◌, str_eq, eq_iff, List, [], ◌∷◌, ◌++◌,
  length, Bool, true, false, ◌&&◌, Option, none, some, inl, inr, ◌≡◌, refl, sym, ap, arith,
  Bool-cases, if◌then◌else◌,
}
use goud_chain.Errors.{ok, panic, Fallible}
use goud_chain.Storage.Bytes.{wrap_i64, i64_of_bits, i64_bits}
use goud_chain.Storage.Codec.{Codec}
use goud_chain.Storage.AuditTypes.{AuditLogResponse}
use goud_chain.Storage.AuditLog.Query.{
  AuditReader, query_logs, get_audit_block_indexes, scan, collections_entries, select, retain,
  sort_newest, paginate,
}
use goud_chain.Api.Auth.{
  Secrets, Claims, Jwt, session_token, strip_prefix, encrypt_api_key_for_jwt,
  decrypt_api_key_from_jwt, generate_session_token, verify_session_token, read_authorization,
  extract_auth_from_headers,
}
use goud_chain.Api.Auth.Sessions.{JwtLaws, generate_session_token_lem}
use goud_chain.Api.AuditRoute.{AuditLogQuery, handle_get_audit_logs}
use goud_chain.Api.AuditRoute.Limits.{length-handle_get_audit_logs, handle_get_audit_logs_panics}
use goud_chain.Crypto.Hkdf.{hash_api_key_hex}
use goud_chain.Domain.Block.{get_collections_by_owner, get_envelope_container, owned}
use goud_chain.Tests.Toy.{crates, json, disk, empty, zeros, to_unary}
use goud_chain.Tests.Laws.{decrypts}
use goud_chain.Tests.Chains.{alone, no_keys}

abbrev claims : Claims
claims = record {
  sub = "a";
  api_key_hash = "h";
  encrypted_api_key = to_unary (zeros 12 ++ 1 ∷ []);
  exp = pos 3600;
  iat = pos 0;
}

abbrev is_pos : ℕ → ℤ → Bool
is_pos m (pos n) = n == m
is_pos m (negsuc n) = false

is_pos-eq : (m : ℕ) (z : ℤ) → is_pos m z ≡ true → pos m ≡ z
is_pos-eq m (pos n) h = let e : m ≡ n = ground arith in ap pos e
is_pos-eq m (negsuc n) h = cc

abbrev is_claims : Claims → Bool
is_claims c =
    str_eq c.sub "a"
    && (str_eq c.api_key_hash "h"
        && (str_eq c.encrypted_api_key (to_unary (zeros 12 ++ 1 ∷ []))
            && (is_pos 3600 c.exp && is_pos 0 c.iat)))

and_split : (a b : Bool) → (a && b) ≡ true → (a ≡ true) × (b ≡ true)
and_split true true h = (refl, refl)
and_split true false h = cc
and_split false b h = cc

is_claims-claims : (c : Claims) → is_claims c ≡ true → claims ≡ c
is_claims-claims c h =
    let (h1, r1) = and_split (str_eq c.sub "a") _ h in
    let (h2, r2) = and_split (str_eq c.api_key_hash "h") _ r1 in
    let (h3, r3) = and_split (str_eq c.encrypted_api_key (to_unary (zeros 12 ++ 1 ∷ []))) _ r2 in
    let (h4, h5) = and_split (is_pos 3600 c.exp) _ r3 in
    let p1 = sym ((eq_iff c.sub "a").0 h1) in
    let p2 = sym ((eq_iff c.api_key_hash "h").0 h2) in
    let p3 = sym ((eq_iff c.encrypted_api_key (to_unary (zeros 12 ++ 1 ∷ []))).0 h3) in
    let p4 = is_pos-eq 3600 c.exp h4 in
    let p5 = is_pos-eq 0 c.iat h5 in
    λ i. record {
      sub = p1 i;
      api_key_hash = p2 i;
      encrypted_api_key = p3 i;
      exp = p4 i;
      iat = p5 i;
    }

-- One token, for these claims.
abbrev jwt : Jwt
jwt = record {
  Validation = Unit;
  default_validation = tt;
  encode = λ secret c. if is_claims c then inr "t" else inl "no token";
  decode = λ secret checks now token. if leb_ℤ now (pos 3600) then inr claims else inl "expired";
}

jwt_laws : JwtLaws jwt
jwt_laws = record {
  decode-encode = λ secret c token now h live. elim (Bool-cases (is_claims c)) [
    | inl t ↦
        let same = is_claims-claims c t in
        let early : leb_ℤ now (pos 3600) ≡ true = let l = rw (sym same) at live in ground arith in
        rw early (ap inr same)
    | inr t ↦ let none_made : Path (Fallible String) (inl "no token") (inr token) = rw t at h in cc
  ];
}

abbrev secrets : Secrets
secrets = record { jwt_secret = []; session_secret = [] }

generates : generate_session_token crates jwt secrets "a" (1 ∷ []) "h" (pos 0) (zeros 12) ≡ ok "t"
unfolding generate_session_token encrypt_api_key_for_jwt wrap_i64 i64_of_bits i64_bits ◌+ℤ◌
generates = refl

generate_session_token_lem_example :
    (c : Claims) × (extract_auth_from_headers crates jwt secrets
        (some (inr ("Bearer " +++ "t")))
        (pos 60)
      ≡ ok (session_token c))
    × (c.sub ≡ "a")
    × (c.api_key_hash ≡ "h")
    × (decrypt_api_key_from_jwt crates jwt secrets c.encrypted_api_key ≡ ok (1 ∷ []))
unfolding wrap_i64 i64_of_bits i64_bits ◌+ℤ◌
generate_session_token_lem_example =
    generate_session_token_lem crates jwt secrets jwt_laws decrypts "a" (1 ∷ []) "h" (pos 0)
      (pos 60) (zeros 12) "t" refl (omega arith) generates

accepts :
    extract_auth_from_headers crates jwt secrets (some (inr "Bearer t")) (pos 60)
    ≡ ok (session_token claims)
unfolding extract_auth_from_headers read_authorization strip_prefix verify_session_token
accepts = refl

abbrev reader : AuditReader (Unit {0})
reader = record {
  value_from_str = λ s. inr tt;
  label = λ v. none;
  batch_from_str = λ s. inl "no batch";
}

abbrev index_codec : Codec (List ℕ)
index_codec = record { serialize = λ ns. inr ns; deserialize = λ bytes. inr bytes }

-- A query for everything, with a page size.
abbrev everything : Option ℕ → AuditLogQuery
everything page_size = record {
  event_type = none;
  collection_id = none;
  start_ts = none;
  end_ts = none;
  page = none;
  page_size = page_size;
}

abbrev no_logs : AuditLogResponse (Unit {0})
no_logs = record { logs = []; total = 0; page = 0; page_size = 50; total_pages = 0 }

opens_key : decrypt_api_key_from_jwt crates jwt secrets claims.encrypted_api_key ≡ ok (1 ∷ [])
unfolding decrypt_api_key_from_jwt
opens_key = refl

no_index : get_audit_block_indexes disk index_codec empty (hash_api_key_hex crates (1 ∷ [])) ≡ ok []
unfolding get_audit_block_indexes
no_index = refl

answers :
    handle_get_audit_logs crates jwt secrets json disk index_codec no_keys no_keys reader
      (some (inr "Bearer t"))
      (everything none)
      (pos 60)
      empty
      alone
    ≡ ok no_logs
unfolding handle_get_audit_logs extract_auth_from_headers read_authorization strip_prefix
    verify_session_token decrypt_api_key_from_jwt query_logs get_audit_block_indexes scan
    collections_entries get_collections_by_owner get_envelope_container owned select retain
    sort_newest paginate
answers = refl

length-handle_get_audit_logs_example : length no_logs.logs ≤ 100
length-handle_get_audit_logs_example =
    length-handle_get_audit_logs crates jwt secrets json disk index_codec no_keys no_keys reader
      (some (inr "Bearer t")) (everything none) (pos 60) empty alone no_logs answers

handle_get_audit_logs_panics_example :
    handle_get_audit_logs crates jwt secrets json disk index_codec no_keys no_keys reader
      (some (inr "Bearer t"))
      (everything (some 0))
      (pos 60)
      empty
      alone
    ≡ panic
unfolding decrypt_api_key_from_jwt
handle_get_audit_logs_panics_example =
    handle_get_audit_logs_panics crates jwt secrets json disk index_codec no_keys no_keys reader
      (some (inr "Bearer t")) (everything (some 0)) (pos 60) empty alone (session_token claims)
      (1 ∷ []) [] refl accepts opens_key no_index

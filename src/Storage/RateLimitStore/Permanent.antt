-- ===== src/Storage/RateLimitStore/Permanent.antt =====
-- No call for another key removes a ban, nor does any call that does not set bans
-- (src/storage/rate_limit_store.rs). The database may fail at any point.
use goud_chain.Prelude.{
  ℤ, leb_ℤ, String, str_eq, [], ◌∷◌, Option, none, some, inl, inr, false, Bool-cases, Option-cases,
  ◌≡◌, refl,
}
use goud_chain.Errors.{
  GoudChainError, map_err, or_panic, Fallible-cases, rocks_db_error, serialization_error,
  deserialization_error,
}
use goud_chain.Crypto.Externals.{Bytes}
use goud_chain.Storage.Bytes.{to_le_bytes, i64_from_le_bytes}
use goud_chain.Storage.Codec.{Codec}
use goud_chain.Storage.RocksDb.{RocksDb, RocksDbLaws, WriteOp, put, delete, after}
use goud_chain.Storage.Lru.{LruCache}
use goud_chain.Storage.Action.{Action, lift, Keeps, >>=-Keeps}
use goud_chain.Storage.Bans.{
  BanLevel, ViolationRecord, BanRecord, is_expired, new_ban, add_violation, next_u32,
}
use goud_chain.Storage.RateLimitStore.{
  RateLimitEntry, Limits, violations_key, ban_key, ip_ban_key, count_key, window_key, decode_count,
  current_window, read_key, write_one, because, count_from_db, increment_request_count,
  get_violations, record_violation, apply_ban, drop_expired_ban, decode_ban, get_ban_status, ban_ip,
  drop_expired_ip, decode_ip_ban, is_ip_banned,
}
use goud_chain.Storage.RateLimitStore.Records.{HasBan}
use goud_chain.Storage.RateLimitStore.Keys.{
  violations_key-ne-ban_key, ip_ban_key-ne-ban_key, count_key-ne-ban_key, ban_key-ne,
}

module _ (r : RocksDb) (c : LruCache RateLimitEntry) (violation_codec : Codec ViolationRecord)
    (ban_codec : Codec BanRecord) (db_laws : RocksDbLaws r) (banned_key : String)
    (ban : BanRecord) where
  abbrev pub Stands : Limits r.Db c.Cache → Type 0
  Stands s = HasBan r c violation_codec ban_codec banned_key ban s

  write_one-Keeps :
      (failed : String → GoudChainError) (op : WriteOp)
      → ((old : Option Bytes) → after op (ban_key banned_key) old ≡ old)
      → Keeps Stands (write_one r c violation_codec ban_codec failed op)
  unfolding write_one
  write_one-Keeps failed op a s h = elim (Fallible-cases (r.write s.db (op ∷ []))) [
    | inl (why, w) ↦ rw (w, write_one) h
    | inr (d, w) ↦
        rw (w, write_one)
          (record {
            stored = h.stored;
            in_db =
                rw a at (
                  db_laws.get-write s.db d (op ∷ []) (ban_key banned_key) (some h.stored) w
                    h.in_db);
            decoded = h.decoded;
          })
  ]

  put_elsewhere :
      (failed : String → GoudChainError) (key : String) (value : Bytes)
      → str_eq key (ban_key banned_key) ≡ false
      → Keeps Stands (write_one r c violation_codec ban_codec failed (put key value))
  put_elsewhere failed key value ne = write_one-Keeps failed (put key value) (λ old. rw ne refl)

  delete_elsewhere :
      (failed : String → GoudChainError) (key : String)
      → str_eq key (ban_key banned_key) ≡ false
      → Keeps Stands (write_one r c violation_codec ban_codec failed (delete key))
  delete_elsewhere failed key ne = write_one-Keeps failed (delete key) (λ old. rw ne refl)

  abbrev reading : String → String → Action (Limits r.Db c.Cache) (Option Bytes)
  reading message key =
      read_key r c violation_codec ban_codec (because r c violation_codec ban_codec message) key

  reading-Keeps : (message key : String) → Keeps Stands (reading message key)
  unfolding read_key
  reading-Keeps message key s h = h

  count_from_db-Keeps :
      (api_key_hash : String) (start : ℤ)
      → Keeps Stands (count_from_db r c violation_codec ban_codec api_key_hash start)
  unfolding count_from_db
  count_from_db-Keeps api_key_hash start =
      let key = count_key api_key_hash start in
      let failed = because r c violation_codec ban_codec "Failed to update rate limit: " in
      >>=-Keeps Stands (reading "Failed to read rate limit: " key) _
        (reading-Keeps "Failed to read rate limit: " key)
        (λ stored.
          >>=-Keeps Stands (lift (decode_count r c violation_codec ban_codec stored)) _ (λ s h. h)
            (λ n.
              let bytes = to_le_bytes 4 (next_u32 n) in
              >>=-Keeps Stands (write_one r c violation_codec ban_codec failed (put key bytes)) _
                (put_elsewhere failed key bytes
                  (count_key-ne-ban_key api_key_hash start banned_key))
                (λ _ s h. record { stored = h.stored; in_db = h.in_db; decoded = h.decoded })))

  pub increment_request_count-Keeps :
      (api_key_hash : String) (now : ℤ)
      → Keeps Stands (increment_request_count r c violation_codec ban_codec api_key_hash now)
  unfolding increment_request_count
  increment_request_count-Keeps api_key_hash now s h =
      let start = current_window now in
      elim (Option-cases (c.peek s.cache (window_key api_key_hash start))) [
        | inr (entry, e) ↦
            rw (e, increment_request_count)
              (record { stored = h.stored; in_db = h.in_db; decoded = h.decoded })
        | inl e ↦ rw (e, increment_request_count) (count_from_db-Keeps api_key_hash start s h)
      ]

  pub get_violations-Keeps :
      (api_key_hash : String)
      → Keeps Stands (get_violations r c violation_codec ban_codec api_key_hash)
  unfolding get_violations
  get_violations-Keeps api_key_hash =
      let key = violations_key api_key_hash in
      >>=-Keeps Stands (reading "Failed to read violations: " key) _
        (reading-Keeps "Failed to read violations: " key) (λ _ s h. h)

  pub record_violation-Keeps :
      (api_key_hash : String) (now : ℤ)
      → Keeps Stands (record_violation r c violation_codec ban_codec api_key_hash now)
  unfolding record_violation
  record_violation-Keeps api_key_hash now =
      let key = violations_key api_key_hash in
      let failed = because r c violation_codec ban_codec "Failed to save violations: " in
      >>=-Keeps Stands (get_violations r c violation_codec ban_codec api_key_hash) _
        (get_violations-Keeps api_key_hash)
        (λ v.
          let bytes =
            map_err serialization_error (violation_codec.serialize (add_violation now v)) in
          >>=-Keeps Stands (lift bytes) _ (λ s h. h)
            (λ value.
              >>=-Keeps Stands (write_one r c violation_codec ban_codec failed (put key value)) _
                (put_elsewhere failed key value (violations_key-ne-ban_key api_key_hash banned_key))
                (λ _ s h. h)))

  pub ban_ip-Keeps :
      (ip_hash : String) (now : ℤ) → Keeps Stands (ban_ip r c violation_codec ban_codec ip_hash now)
  unfolding ban_ip
  ban_ip-Keeps ip_hash now =
      put_elsewhere _ (ip_ban_key ip_hash) _ (ip_ban_key-ne-ban_key ip_hash banned_key)

  pub apply_ban-Keeps :
      (api_key_hash : String) (level : BanLevel) (now : ℤ)
      → str_eq api_key_hash banned_key ≡ false
      → Keeps Stands (apply_ban r c violation_codec ban_codec api_key_hash level now)
  unfolding apply_ban
  apply_ban-Keeps api_key_hash level now ne =
      let bytes = map_err serialization_error (ban_codec.serialize (new_ban now level)) in
      >>=-Keeps Stands (lift bytes) _ (λ s h. h)
        (λ value.
          put_elsewhere _ (ban_key api_key_hash) value (ban_key-ne api_key_hash banned_key ne))

  drop_expired_ban-Keeps :
      (api_key_hash : String) (now : ℤ) (found : BanRecord)
      → str_eq api_key_hash banned_key ≡ false
      → Keeps Stands (drop_expired_ban r c violation_codec ban_codec api_key_hash now found)
  unfolding drop_expired_ban
  drop_expired_ban-Keeps api_key_hash now found ne s h = elim (Bool-cases (is_expired now found)) [
    | inl e ↦
        let key = ban_key api_key_hash in
        rw (e, drop_expired_ban)
          (>>=-Keeps Stands (write_one r c violation_codec ban_codec rocks_db_error (delete key)) _
            (delete_elsewhere _ key (ban_key-ne api_key_hash banned_key ne)) (λ _ s h. h) s h)
    | inr e ↦ rw (e, drop_expired_ban) h
  ]

  decode_ban-Keeps :
      (api_key_hash : String) (now : ℤ) (stored : Option Bytes)
      → str_eq api_key_hash banned_key ≡ false
      → Keeps Stands (decode_ban r c violation_codec ban_codec api_key_hash now stored)
  decode_ban-Keeps api_key_hash now none ne s h = h
  decode_ban-Keeps api_key_hash now (some bytes) ne s h =
      let found = map_err deserialization_error (ban_codec.deserialize bytes) in
      >>=-Keeps Stands (lift found) _ (λ s h. h)
        (λ found. drop_expired_ban-Keeps api_key_hash now found ne) s h

  pub get_ban_status-Keeps :
      (api_key_hash : String) (now : ℤ)
      → str_eq api_key_hash banned_key ≡ false
      → Keeps Stands (get_ban_status r c violation_codec ban_codec api_key_hash now)
  unfolding get_ban_status
  get_ban_status-Keeps api_key_hash now ne =
      let key = ban_key api_key_hash in
      >>=-Keeps Stands (reading "Failed to read ban status: " key) _
        (reading-Keeps "Failed to read ban status: " key)
        (λ stored. decode_ban-Keeps api_key_hash now stored ne)

  drop_expired_ip-Keeps :
      (ip_hash : String) (now expires_at : ℤ)
      → Keeps Stands (drop_expired_ip r c violation_codec ban_codec ip_hash now expires_at)
  unfolding drop_expired_ip
  drop_expired_ip-Keeps ip_hash now expires_at s h = elim (Bool-cases (leb_ℤ expires_at now)) [
    | inl e ↦
        let key = ip_ban_key ip_hash in
        rw (e, drop_expired_ip)
          (>>=-Keeps Stands (write_one r c violation_codec ban_codec rocks_db_error (delete key)) _
            (delete_elsewhere _ key (ip_ban_key-ne-ban_key ip_hash banned_key)) (λ _ s h. h) s h)
    | inr e ↦ rw (e, drop_expired_ip) h
  ]

  decode_ip_ban-Keeps :
      (ip_hash : String) (now : ℤ) (stored : Option Bytes)
      → Keeps Stands (decode_ip_ban r c violation_codec ban_codec ip_hash now stored)
  decode_ip_ban-Keeps ip_hash now none s h = h
  decode_ip_ban-Keeps ip_hash now (some bytes) s h =
      >>=-Keeps Stands (lift (or_panic (i64_from_le_bytes bytes))) _ (λ s h. h)
        (drop_expired_ip-Keeps ip_hash now) s h

  pub is_ip_banned-Keeps :
      (ip_hash : String) (now : ℤ)
      → Keeps Stands (is_ip_banned r c violation_codec ban_codec ip_hash now)
  unfolding is_ip_banned
  is_ip_banned-Keeps ip_hash now =
      let key = ip_ban_key ip_hash in
      >>=-Keeps Stands (reading "Failed to check IP ban: " key) _
        (reading-Keeps "Failed to check IP ban: " key) (decode_ip_ban-Keeps ip_hash now)

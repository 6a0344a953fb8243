-- ===== src/Storage/RateLimitStore/Records.antt =====
-- What the violations and the bans of src/storage/rate_limit_store.rs leave in a database that does not
-- fail.
use goud_chain.Prelude.{
  ℤ, pos, ◌+ℤ◌, String, str_eq, eq_refl, [], ◌∷◌, Option, some, inr, false, ◌≡◌, refl,
}
use goud_chain.Errors.{GoudChainError, ok}
use goud_chain.Constants.{ban_ip_24hr_seconds}
use goud_chain.Crypto.Externals.{Bytes}
use goud_chain.Storage.Bytes.{i64_to_le_bytes}
use goud_chain.Storage.Codec.{Codec, CodecLaws}
use goud_chain.Storage.RocksDb.{RocksDb, RocksDbLaws, IsReliable, put}
use goud_chain.Storage.Lru.{LruCache}
use goud_chain.Storage.Bans.{
  BanLevel, ViolationRecord, BanRecord, add_violation, new_ban, is_expired,
}
use goud_chain.Storage.RateLimitStore.{
  RateLimitEntry, Limits, violations_key, ban_key, ip_ban_key, read_key, write_one, because,
  decode_violations, get_violations, record_violation, apply_ban, drop_expired_ban, get_ban_status,
  ban_ip,
}

module _ (r : RocksDb) (c : LruCache RateLimitEntry) (violation_codec : Codec ViolationRecord)
    (ban_codec : Codec BanRecord) where
  abbrev pub State : Type 0
  State = Limits r.Db c.Cache

  -- The second state has this value under the key, and what the first has under every other.
  pub record Wrote (key : String) (value : Bytes) (s s' : State) : Type 0 where
    pub at_key : r.get s'.db key ≡ inr (some value)
    pub others :
        (j : String) (old : Option Bytes)
        → str_eq key j ≡ false
        → r.get s.db j ≡ inr old
        → r.get s'.db j ≡ inr old

  -- The violations that are read for a key.
  pub record HasViolations (api_key_hash : String) (v : ViolationRecord) (s : State) : Type 0 where
    pub stored : Option Bytes
    pub in_db : r.get s.db (violations_key api_key_hash) ≡ inr stored
    pub decoded : decode_violations r c violation_codec ban_codec stored ≡ ok v

  -- The ban that stands under a key.
  pub record HasBan (api_key_hash : String) (ban : BanRecord) (s : State) : Type 0 where
    pub stored : Bytes
    pub in_db : r.get s.db (ban_key api_key_hash) ≡ inr (some stored)
    pub decoded : ban_codec.deserialize stored ≡ inr ban

  pub get_violations-HasViolations :
      (api_key_hash : String) (v : ViolationRecord) (s : State)
      → HasViolations api_key_hash v s
      → get_violations r c violation_codec ban_codec api_key_hash s ≡ (ok v, s)
  unfolding get_violations read_key
  get_violations-HasViolations api_key_hash v s h = rw (h.in_db, h.decoded) refl

  -- A ban that has not expired is given, and nothing changes.
  pub get_ban_status-HasBan :
      (api_key_hash : String) (now : ℤ) (ban : BanRecord) (s : State)
      → HasBan api_key_hash ban s
      → is_expired now ban ≡ false
      → get_ban_status r c violation_codec ban_codec api_key_hash now s ≡ (ok (some ban), s)
  unfolding get_ban_status read_key drop_expired_ban
  get_ban_status-HasBan api_key_hash now ban s h e = rw (h.in_db, h.decoded, e) refl

  module _ (db_laws : RocksDbLaws r) (reliable : IsReliable r)
      (violation_laws : CodecLaws violation_codec) (ban_laws : CodecLaws ban_codec) where
    pub write_one-put :
        (failed : String → GoudChainError) (key : String) (value : Bytes) (s : State)
        → (s' : State) × (write_one r c violation_codec ban_codec failed (put key value) s
            ≡ (ok tt, s'))
          × Wrote key value s s'
    unfolding write_one
    write_one-put failed key value s =
        let ops = put key value ∷ [] in
        let (d, w) = reliable.write-total s.db ops in
        let (old, g) = reliable.get-total s.db key in
        (
          record s { db = d },
          rw (w, write_one) refl,
          record {
            at_key = rw eq_refl at (db_laws.get-write s.db d ops key old w g);
            others = λ j before ne at. rw ne at (db_laws.get-write s.db d ops j before w at);
          },
        )

    pub record_violation_lem :
        (api_key_hash : String) (now : ℤ) (v : ViolationRecord) (s : State)
        → HasViolations api_key_hash v s
        → (s' : State) × (value : Bytes) × (record_violation r c violation_codec ban_codec
              api_key_hash now s
            ≡ (ok (add_violation now v), s'))
          × Wrote (violations_key api_key_hash) value s s'
          × HasViolations api_key_hash (add_violation now v) s'
    unfolding record_violation
    record_violation_lem api_key_hash now v s h =
        let (value, written) = violation_laws.serialize-total (add_violation now v) in
        let (s', ran, wrote) =
          write_one-put (because r c violation_codec ban_codec "Failed to save violations: ")
            (violations_key api_key_hash) value s in
        let read_back = violation_laws.deserialize-serialize (add_violation now v) value written in
        (
          s',
          value,
          rw (get_violations-HasViolations api_key_hash v s h, written, ran) refl,
          wrote,
          record { stored = some value; in_db = wrote.at_key; decoded = rw read_back refl },
        )

    pub apply_ban_lem :
        (api_key_hash : String) (level : BanLevel) (now : ℤ) (s : State)
        → (s' : State) × (value : Bytes) × (apply_ban r c violation_codec ban_codec api_key_hash
              level now s
            ≡ (ok tt, s'))
          × Wrote (ban_key api_key_hash) value s s'
          × HasBan api_key_hash (new_ban now level) s'
    unfolding apply_ban
    apply_ban_lem api_key_hash level now s =
        let (value, written) = ban_laws.serialize-total (new_ban now level) in
        let (s', ran, wrote) =
          write_one-put (because r c violation_codec ban_codec "Failed to save ban: ")
            (ban_key api_key_hash) value s in
        (
          s',
          value,
          rw (written, ran) refl,
          wrote,
          record {
            stored = value;
            in_db = wrote.at_key;
            decoded = ban_laws.deserialize-serialize (new_ban now level) value written;
          },
        )

    pub ban_ip_lem :
        (ip_hash : String) (now : ℤ) (s : State)
        → (s' : State) × (ban_ip r c violation_codec ban_codec ip_hash now s ≡ (ok tt, s'))
          × Wrote (ip_ban_key ip_hash) (i64_to_le_bytes (now +ℤ pos ban_ip_24hr_seconds)) s s'
    unfolding ban_ip
    ban_ip_lem ip_hash now s =
        write_one-put (because r c violation_codec ban_codec "Failed to ban IP: ")
          (ip_ban_key ip_hash) (i64_to_le_bytes (now +ℤ pos ban_ip_24hr_seconds)) s

-- ===== src/Tests/Audits.antt =====
-- The audit log of a node: an entry, its flush, and answers.
use mathlib.Core.Option.{some-injective}
use mathlib.Core.Path.{ap₂}
use goud_chain.Prelude.{
  ℕ, zero, suc, ℤ, pos, negsuc, String, str_eq, eq_iff, StrMap, lookup, List, [], ◌∷◌, Bool, true,
  false, Option, none, some, inl, inr, ◌≡◌, ◌↔◌, refl, sym, ap, arith, Bool-cases, if◌then◌else◌,
  insert,
}
use goud_chain.Errors.{ok, Fallible, inr_injective}
use goud_chain.Config.{round_robin, is_node_authorized}
use goud_chain.Crypto.Externals.{Externals, Bytes, as_bytes}
use goud_chain.Crypto.Encryption.{encrypt_data_with_nonce}
use goud_chain.Crypto.Hkdf.{hash_api_key_hex}
use goud_chain.Crypto.Mac.{compute_mac, hmac}
use goud_chain.Domain.Types.{EncryptedCollection}
use goud_chain.Domain.Block.{new_block}
use goud_chain.Domain.Blockchain.{Blockchain}
use goud_chain.Domain.Blockchain.Add.{
  add_collection, add_block, create_block, author_block, seal_accounts,
}
use goud_chain.Domain.Blockchain.Add.Keeps.{ReadsBack}
use goud_chain.Domain.Collection.{Signing, new_collection, sign_message, get_public_key_hex}
use goud_chain.Domain.Envelope.{encrypt_account_envelope}
use goud_chain.Domain.Envelope.RoundTrip.{Decrypts}
use goud_chain.Storage.Codec.{Codec}
use goud_chain.Storage.AuditTypes.{
  AuditEventType, account_created, data_submitted, data_decrypted, data_listed, account_login,
  AuditLogEntry, AuditLogBatch, AuditLogFilter,
}
use goud_chain.Storage.AuditLog.{AuditLogger, hash_ip_truncated, first_chars, new_entry, log}
use goud_chain.Storage.AuditLog.Query.{
  AuditReader, is_kept, retain, select, paginate, collection_entries,
}
use goud_chain.Storage.AuditLog.Pages.{page_of, first_pages, pages_in, paginate_lem}
use goud_chain.Storage.AuditLog.Select.{IsNewestFirst, at_time, Matches, select_lem}
use goud_chain.Storage.AuditLog.Flush.{
  FlushDraws, collect_batches, seal_batch, make_block, flush_batch, flush_batches,
  flush_all_batches,
}
use goud_chain.Storage.AuditLog.Recorded.{IsIn, recorded}
use goud_chain.Storage.AuditLog.Found.{SerdeLaws, flush_all_batches-log}
use goud_chain.Tests.Toy.{crates, json, disk, empty, codec, zeros}
use goud_chain.Tests.Laws.{reads_back, decrypts}
use goud_chain.Tests.Chains.{alone, draws, no_keys}

-- Every hash is written alike.
abbrev log_crates : Externals
log_crates = record crates { hex_encode = λ bytes. "0123456789" }

log_reads_back : ReadsBack log_crates json
log_reads_back = record { base64 = reads_back.base64; container = reads_back.container }

log_decrypts : Decrypts log_crates
log_decrypts = record { base64 = decrypts.base64; aes = decrypts.aes }

abbrev login : AuditLogEntry (Unit {0})
login = new_entry account_login none "01234567" tt (pos 0)

abbrev login_batch : AuditLogBatch (Unit {0})
login_batch = record { entries = login ∷ []; batch_timestamp = pos 0; entry_count = 1 }

-- One batch has a text.
abbrev is_login : AuditEventType → ℤ → Option String → String → Bool → Bool
is_login account_login (pos zero) none ip_hash false = str_eq ip_hash "01234567"
is_login _ _ _ _ _ = false

is_login-login :
    (event_type : AuditEventType) (timestamp : ℤ) (collection_id : Option String) (ip_hash : String)
    (invalidated : Bool)
    → is_login event_type timestamp collection_id ip_hash invalidated ≡ true
    → login ≡ record {
      event_type = event_type;
      timestamp = timestamp;
      collection_id = collection_id;
      ip_hash = ip_hash;
      metadata = tt;
      invalidated = invalidated;
    }
is_login-login account_created timestamp collection_id ip_hash invalidated h = cc
is_login-login data_submitted timestamp collection_id ip_hash invalidated h = cc
is_login-login data_decrypted timestamp collection_id ip_hash invalidated h = cc
is_login-login data_listed timestamp collection_id ip_hash invalidated h = cc
is_login-login account_login (negsuc n) collection_id ip_hash invalidated h = cc
is_login-login account_login (pos (suc n)) collection_id ip_hash invalidated h = cc
is_login-login account_login (pos zero) (some id) ip_hash invalidated h = cc
is_login-login account_login (pos zero) none ip_hash true h = cc
is_login-login account_login (pos zero) none ip_hash false h =
    ap (λ ip. new_entry account_login none ip tt (pos 0)) (sym ((eq_iff ip_hash "01234567").0 h))

abbrev login_text : List (AuditLogEntry (Unit {0})) → ℤ → ℕ → Fallible String
login_text (e ∷ []) (pos zero) (suc zero) =
    if is_login e.event_type e.timestamp e.collection_id e.ip_hash e.invalidated
    then inr ""
    else inl "no text"
login_text _ _ _ = inl "no text"

login_text-login_batch :
    (entries : List (AuditLogEntry (Unit {0}))) (time : ℤ) (count : ℕ) (s : String)
    → login_text entries time count ≡ inr s
    → (login_batch ≡ record { entries = entries; batch_timestamp = time; entry_count = count })
      × ("" ≡ s)
login_text-login_batch [] time count s h = cc
login_text-login_batch (e ∷ f ∷ es) time count s h = cc
login_text-login_batch (e ∷ []) (negsuc n) count s h = cc
login_text-login_batch (e ∷ []) (pos (suc n)) count s h = cc
login_text-login_batch (e ∷ []) (pos zero) zero s h = cc
login_text-login_batch (e ∷ []) (pos zero) (suc (suc n)) s h = cc
login_text-login_batch (e ∷ []) (pos zero) (suc zero) s h =
    elim (Bool-cases (is_login e.event_type e.timestamp e.collection_id e.ip_hash e.invalidated)) [
      | inl t ↦
          let written : inr "" ≡ inr s = rw t at h in
          (
            ap (λ l. record { entries = l ∷ []; batch_timestamp = pos 0; entry_count = 1 })
                (is_login-login e.event_type e.timestamp e.collection_id e.ip_hash e.invalidated t),
            inr_injective written,
          )
      | inr t ↦ let unwritten : Path (Fallible String) (inl "no text") (inr s) = rw t at h in cc
    ]

abbrev batch_to_string : AuditLogBatch (Unit {0}) → Fallible String
batch_to_string b = login_text b.entries b.batch_timestamp b.entry_count

abbrev label_to_string : String → ℤ → Fallible String
label_to_string label time = if str_eq label "AUDIT:Batch" then inr "" else inl "no text"

abbrev reader : AuditReader (Unit {0})
reader = record {
  value_from_str = λ s. inr tt;
  label = λ v. some "AUDIT:Batch";
  batch_from_str = λ s. inr login_batch;
}

label_text :
    (label : String) (time : ℤ) (s : String)
    → label_to_string label time ≡ inr s
    → ("" ≡ s) × ("AUDIT:Batch" ≡ label)
label_text label time s h = elim (Bool-cases (str_eq label "AUDIT:Batch")) [
  | inl t ↦
      let written : inr "" ≡ inr s = rw t at h in
      (inr_injective written, sym ((eq_iff label "AUDIT:Batch").0 t))
  | inr t ↦ let unwritten : Path (Fallible String) (inl "no text") (inr s) = rw t at h in cc
]

log_serde : SerdeLaws log_crates label_to_string batch_to_string reader
log_serde = record {
  batch_text =
      λ b s h. ap inr (login_text-login_batch b.entries b.batch_timestamp b.entry_count s h).1;
  batch_read =
      λ b s h. ap inr (login_text-login_batch b.entries b.batch_timestamp b.entry_count s h).0;
  metadata_text = λ label time s h. ap inr (label_text label time s h).0;
  metadata_read = λ label time s h. (tt, refl, ap some (label_text label time s h).1);
}

abbrev signing : Signing
signing = record {
  SigningKey = Unit {0};
  sign = λ key message. zeros 64;
  public_bytes = λ key. zeros 32;
}

abbrev flush_draws : ℕ → FlushDraws (Unit {0})
flush_draws i = record {
  batch_timestamp = pos 0;
  generated = tt;
  collection = record {
    collection_id = "c";
    user_salt_bytes = 1 ∷ [];
    created_at = pos 0;
    metadata_nonce = zeros 12;
    payload_nonce = zeros 12;
  };
  block = draws;
}

abbrev no_logs : AuditLogger (Unit {0})
no_logs = record { pending_logs = []; api_key_cache = [] }

abbrev one_log : AuditLogger (Unit {0})
one_log = record {
  pending_logs = ("0123456789", login ∷ []) ∷ [];
  api_key_cache = ("0123456789", 1 ∷ []) ∷ [];
}

abbrev in_order :
    StrMap (List (AuditLogEntry (Unit {0}))) → List (String × List (AuditLogEntry (Unit {0})))
in_order m = m

in_order-IsIn :
    (m : StrMap (List (AuditLogEntry (Unit {0})))) (k : String)
    (es : List (AuditLogEntry (Unit {0})))
    → lookup k m ≡ some es
    → IsIn (k, es) (in_order m)
unfolding lookup
in_order-IsIn [] k es h = cc
in_order-IsIn ((i, fs) ∷ m) k es h = elim (Bool-cases (str_eq k i)) [
  | inl t ↦
      let same : Path (Option (List (AuditLogEntry (Unit {0})))) (some fs) (some es) = rw t at h in
      inl (ap₂ (λ a b. (a, b)) ((eq_iff k i).0 t) (sym (some-injective fs es same)))
  | inr t ↦ inr (in_order-IsIn m k es (rw t at h))
]

abbrev index_codec : Codec (List ℕ)
index_codec = record { serialize = λ ns. inr ns; deserialize = λ bytes. inr bytes }

hashes_ip : hash_ip_truncated log_crates "127.0.0.1" ≡ ok "01234567"
unfolding hash_ip_truncated first_chars as_bytes
hashes_ip = refl

logs : log log_crates no_logs (1 ∷ []) account_login none "127.0.0.1" tt (pos 0) ≡ ok one_log
unfolding log hash_ip_truncated first_chars as_bytes hash_api_key_hex lookup insert
logs = refl

flushes :
    (flush_all_batches log_crates json disk codec no_keys no_keys signing label_to_string
      batch_to_string none in_order flush_draws
      (one_log, (alone, empty))).0
    ≡ ok tt
unfolding flush_all_batches collect_batches flush_batches flush_batch seal_batch new_collection
    make_block is_node_authorized round_robin add_collection encrypt_data_with_nonce compute_mac
    hmac sign_message get_public_key_hex as_bytes lookup add_block create_block author_block
    seal_accounts encrypt_account_envelope new_block
flushes = refl

none_cached :
    (k : Bytes)
    → lookup (hash_api_key_hex log_crates (1 ∷ [])) no_logs.api_key_cache ≡ some k
    → k ≡ 1 ∷ []
unfolding lookup
none_cached k h = cc

abbrev flushed_node : Blockchain × disk.Db
flushed_node =
    (flush_all_batches log_crates json disk codec no_keys no_keys signing label_to_string
      batch_to_string none in_order flush_draws (one_log, (alone, empty))).1.1

flush_all_batches-log_example :
    (c : EncryptedCollection) × IsIn c (recorded log_crates json flushed_node.0 (1 ∷ []))
    × IsIn login
        (collection_entries disk index_codec log_crates json no_keys no_keys reader (1 ∷ []) c)
flush_all_batches-log_example =
    flush_all_batches-log log_crates json disk codec index_codec no_keys no_keys signing
      label_to_string batch_to_string none log_reads_back log_decrypts reader log_serde in_order
      flush_draws no_logs one_log (alone, empty) (1 ∷ []) account_login none "127.0.0.1" "01234567"
      tt (pos 0) in_order-IsIn (λ i. refl) (λ i. refl) none_cached hashes_ip logs flushes

abbrev later : AuditLogEntry (Unit {0})
later = new_entry account_created none "01234567" tt (pos 9)

abbrev all_logs : AuditLogFilter
all_logs = record {
  event_type = none;
  start_ts = some (pos 1);
  end_ts = none;
  include_invalidated = false;
}

select_lem_example :
    IsNewestFirst (select all_logs (login ∷ later ∷ []))
    × (at_time (pos 9) (select all_logs (login ∷ later ∷ []))
        ≡ at_time (pos 9) (retain (is_kept all_logs) (login ∷ later ∷ [])))
    × ((is_kept all_logs login ≡ true) ↔ Matches all_logs login)
select_lem_example = select_lem all_logs (login ∷ later ∷ []) (pos 9) login

paginate_lem_example :
    (paginate (later ∷ login ∷ login ∷ []) 1 (suc 1)
      ≡ ok (record {
        logs = page_of (later ∷ login ∷ login ∷ []) (suc 1) 1;
        total = 3;
        page = 1;
        page_size = 2;
        total_pages = pages_in 3 (suc 1);
      }))
    × (first_pages (later ∷ login ∷ login ∷ []) (suc 1) (pages_in 3 (suc 1))
        ≡ later ∷ login ∷ login ∷ [])
paginate_lem_example = paginate_lem (later ∷ login ∷ login ∷ []) 1 1 (omega arith)

-- ===== src/Tests/Laws.antt =====
-- The small functions have the behaviour that the theorems ask of the other crates.

use goud_chain.Prelude.{
  ℕ, zero, suc, ◌+◌, String, str_eq, eq_iff, eq_refl, List, [], ◌∷◌, inl, inr, Bool, true, false,
  Bool-cases, ◌≡◌, refl, ap, ap₂, sym, ◌∙◌, arith,
}
use goud_chain.Errors.{Fallible, inr_injective}
use goud_chain.Crypto.Externals.{Bytes, as_bytes}
use goud_chain.Domain.Types.{EncryptedCollection, AccountEnvelope, CollectionEnvelope}
use goud_chain.Domain.Envelope.RoundTrip.{Decrypts}
use goud_chain.Domain.Blockchain.Add.Keeps.{ReadsBack}
use goud_chain.Storage.RocksDb.{RocksDbLaws, after_all}
use goud_chain.Storage.Lru.{LruLaws}
use goud_chain.Tests.Toy.{
  unary, to_unary, from_unary, crates, envelope, is_envelope, item, is_item, container_text,
  text_container, json, disk, lru,
}

from_unary-unary : (m n : ℕ) (s : String) → from_unary m (unary n s) ≡ (m + n) ∷ from_unary 0 s
from_unary-unary m zero s = ap (λ k. k ∷ from_unary 0 s) (omega arith)
from_unary-unary m (suc n) s =
    from_unary-unary (suc m) n s ∙ ap (λ k. k ∷ from_unary 0 s) (omega arith)

pub from_unary-to_unary : (bytes : Bytes) → from_unary 0 (to_unary bytes) ≡ bytes
from_unary-to_unary [] = refl
from_unary-to_unary (n ∷ ns) =
    from_unary-unary 0 n (to_unary ns) ∙ ap₂ ◌∷◌ (omega arith) (from_unary-to_unary ns)

pub disk_laws : RocksDbLaws disk
disk_laws = record {
  get-write = λ d d' ops k old w g.
      ap (λ f. inr (f k)) (sym (inr_injective w))
      ∙ ap (λ o. inr (after_all ops k o)) (inr_injective g);
}

pub lru_laws : {V : Type 0} → LruLaws (lru {V = V})
lru_laws = record {
  peek-touch = λ s k j. refl;
  peek-update_self = λ s k v. rw (eq_refl k) refl;
  peek-update_ne = λ s k j v ne. rw ne refl;
  peek-put_self = λ s k v. rw (eq_refl k) refl;
  peek-put_ne = λ s k j v ne. inl (rw ne refl);
  peek-pop_self = λ s k. rw (eq_refl k) refl;
  peek-pop_ne = λ s k j ne. rw ne refl;
  peek-clear = λ s j. refl;
}

is_envelope-envelope : (e : AccountEnvelope) → is_envelope e ≡ true → envelope ≡ e
is_envelope-envelope e h =
    let a : "" ≡ e.encrypted_data = ground (arith, eq_iff e.encrypted_data "") in
    let b : "" ≡ e.api_key_hash = ground (arith, eq_iff e.api_key_hash "") in
    let c : "" ≡ e.nonce = ground (arith, eq_iff e.nonce "") in
    λ i. record { encrypted_data = a i; api_key_hash = b i; nonce = c i }

is_item-item : (c : EncryptedCollection) → is_item c ≡ true → item ≡ c
is_item-item c h =
    let p0 : "c" ≡ c.collection_id = ground (arith, eq_iff c.collection_id "c") in
    let p1 : "" ≡ c.owner_api_key_hash = ground (arith, eq_iff c.owner_api_key_hash "") in
    let p2 : "" ≡ c.encrypted_metadata = ground (arith, eq_iff c.encrypted_metadata "") in
    let p3 : "" ≡ c.encrypted_payload = ground (arith, eq_iff c.encrypted_payload "") in
    let p4 : "" ≡ c.mac = ground (arith, eq_iff c.mac "") in
    let p5 : "" ≡ c.nonce = ground (arith, eq_iff c.nonce "") in
    let p6 : "" ≡ c.signature = ground (arith, eq_iff c.signature "") in
    let p7 : "" ≡ c.public_key = ground (arith, eq_iff c.public_key "") in
    let p8 : "" ≡ c.user_salt = ground (arith, eq_iff c.user_salt "") in
    λ i. record {
      collection_id = p0 i;
      owner_api_key_hash = p1 i;
      encrypted_metadata = p2 i;
      encrypted_payload = p3 i;
      mac = p4 i;
      nonce = p5 i;
      signature = p6 i;
      public_key = p7 i;
      user_salt = p8 i;
    }

container_text-text_container :
    (accounts : List AccountEnvelope) (collections : List CollectionEnvelope) (is_v : Bool)
    (s : String)
    → container_text accounts collections is_v ≡ inr s
    → text_container (as_bytes s)
      ≡ record { account_envelopes = accounts; collection_envelopes = collections; validator = "v" }
unfolding as_bytes
container_text-text_container [] [] true s h = rw (sym (inr_injective h)) refl
container_text-text_container (e ∷ []) [] true s h = elim (Bool-cases (is_envelope e)) [
  | inl t ↦
      let read : inr "!" ≡ inr s = rw t at h in
      rw (sym (inr_injective read), sym (is_envelope-envelope e t)) refl
  | inr t ↦ let unread : Path (Fallible String) (inl "no text") (inr s) = rw t at h in cc
]
container_text-text_container [] [] false s h = cc
container_text-text_container (e ∷ []) [] false s h = cc
container_text-text_container (e ∷ d ∷ es) [] v s h = cc
container_text-text_container [] (d ∷ []) true s h = elim (Bool-cases (is_item d.collection)) [
  | inl t ↦
      let read : inr "##" ≡ inr s = rw t at h in
      rw (sym (inr_injective read), sym (is_item-item d.collection t)) refl
  | inr t ↦ let unread : Path (Fallible String) (inl "no text") (inr s) = rw t at h in cc
]
container_text-text_container [] (d ∷ []) false s h = cc
container_text-text_container [] (d ∷ e ∷ ds) v s h = cc
container_text-text_container (e ∷ []) (d ∷ ds) v s h = cc
container_text-text_container (e ∷ f ∷ es) (d ∷ ds) v s h = cc

container_text_validator :
    (accounts : List AccountEnvelope) (collections : List CollectionEnvelope) (is_v : Bool)
    (s : String)
    → container_text accounts collections is_v ≡ inr s
    → is_v ≡ true
container_text_validator accounts collections is_v s h = ground arith

pub reads_back : ReadsBack crates json
reads_back = record {
  base64 = λ bytes. ap inr (from_unary-to_unary bytes);
  container = λ c s h.
      let v =
        container_text_validator c.account_envelopes c.collection_envelopes (str_eq c.validator "v")
          s h in
      ap inr (
        container_text-text_container c.account_envelopes c.collection_envelopes
          (str_eq c.validator "v") s h
        ∙ ap
            (λ validator. record {
              account_envelopes = c.account_envelopes;
              collection_envelopes = c.collection_envelopes;
              validator = validator;
            })
            (sym ((eq_iff c.validator "v").0 v)));
}

pub decrypts : Decrypts crates
decrypts = record {
  base64 = λ bytes. ap inr (from_unary-to_unary bytes);
  aes = λ key nonce plaintext ciphertext h. sym h;
}

-- ===== src/Tests/Toy.antt =====
-- Small functions in place of the other crates: a hash that marks its text, an encoding in unary, a
-- cipher that changes nothing, stores that are functions.
use Prim.Native.Char.{code}
use goud_chain.Prelude.{
  ℕ, zero, suc, pos, ◌==◌, String, ◌+++◌, str_eq, List, [], ◌∷◌, Option, none, some, inl, inr, Bool,
  true, false, ◌&&◌, if◌then◌else◌,
}
use goud_chain.Errors.{Fallible}
use goud_chain.Crypto.Externals.{Externals, Bytes}
use goud_chain.Domain.Types.{
  UserAccount, EncryptedCollection, AccountEnvelope, Block, CollectionEnvelope,
  BlockEnvelopeContainer, Json,
}
use goud_chain.Storage.RocksDb.{RocksDb, after_all}
use goud_chain.Storage.Lru.{LruCache}
use goud_chain.Storage.Codec.{Codec}

abbrev pub mark : String → String
mark s = "h" +++ s

-- A byte is as many letters `a` as it counts, and a `b`.
abbrev pub unary : ℕ → String → String
unary zero s = String.◌∷◌ "b" s
unary (suc n) s = String.◌∷◌ "a" (unary n s)

abbrev pub to_unary : Bytes → String
to_unary [] = ""
to_unary (n ∷ ns) = unary n (to_unary ns)

-- The bytes of a text, the first of which has been read up to the count.
abbrev pub from_unary : ℕ → String → Bytes
from_unary n String.[] = []
from_unary n (String.◌∷◌ c s) = if code c == 97 then from_unary (suc n) s else n ∷ from_unary 0 s

abbrev pub zeros : ℕ → Bytes
zeros zero = []
zeros (suc n) = 0 ∷ zeros n

-- Every text is hexadecimal: a key for `key`, and else a signature, which every key accepts.
abbrev pub crates : Externals
crates = record {
  blake3_hex = mark;
  sha256 = λ bytes. zeros 32;
  hex_encode = λ bytes. "";
  hex_decode = λ s. inr (if str_eq s "key" then zeros 32 else zeros 64);
  base64_encode = to_unary;
  base64_decode = λ s. inr (from_unary 0 s);
  hmac_sha256 = λ key bytes. inr [];
  aes_encrypt = λ key nonce plaintext. inr plaintext;
  aes_decrypt = λ key nonce ciphertext. inr ciphertext;
  from_utf8 = λ bytes. inr "";
  VerifyingKey = Unit {0};
  verifying_key = λ bytes. inr tt;
  verify = λ key message signature. true;
}

abbrev pub envelope : AccountEnvelope
envelope = record { encrypted_data = ""; api_key_hash = ""; nonce = "" }

abbrev pub is_envelope : AccountEnvelope → Bool
is_envelope e = str_eq e.encrypted_data "" && (str_eq e.api_key_hash "" && str_eq e.nonce "")

-- A collection of the owner whose key's hash is empty.
abbrev pub item : EncryptedCollection
item = record {
  collection_id = "c";
  owner_api_key_hash = "";
  encrypted_metadata = "";
  encrypted_payload = "";
  mac = "";
  nonce = "";
  signature = "";
  public_key = "";
  user_salt = "";
}

abbrev pub is_item : EncryptedCollection → Bool
is_item c =
    str_eq c.collection_id "c"
    && (str_eq c.owner_api_key_hash ""
        && (str_eq c.encrypted_metadata ""
            && (str_eq c.encrypted_payload ""
                && (str_eq c.mac ""
                    && (str_eq c.nonce ""
                        && (str_eq c.signature ""
                            && (str_eq c.public_key "" && (str_eq c.user_salt ""))))))))

-- Three containers have a text: the empty one, the one with the envelope and the one with the
-- collection, all by the validator `v`.
abbrev pub container_text : List AccountEnvelope → List CollectionEnvelope → Bool → Fallible String
container_text [] [] true = inr ""
container_text (e ∷ []) [] true = if is_envelope e then inr "!" else inl "no text"
container_text [] (d ∷ []) true = if is_item d.collection then inr "##" else inl "no text"
container_text _ _ _ = inl "no text"

abbrev pub text_container : Bytes → BlockEnvelopeContainer
text_container [] = record { account_envelopes = []; collection_envelopes = []; validator = "v" }
text_container (one ∷ two ∷ bytes) = record {
  account_envelopes = [];
  collection_envelopes = record { collection = item } ∷ [];
  validator = "v";
}
text_container (byte ∷ []) = record {
  account_envelopes = envelope ∷ [];
  collection_envelopes = [];
  validator = "v";
}

abbrev pub account : UserAccount
account = record {
  account_id = "a";
  api_key_hash = "";
  public_key = "";
  created_at = pos 0;
  metadata_encrypted = none;
  signature = "";
}

abbrev pub json : Json
json = record {
  account_to_string = λ a. inr "";
  account_from_str = λ s. inr account;
  container_to_string =
      λ c. container_text c.account_envelopes c.collection_envelopes (str_eq c.validator "v");
  container_from_slice = λ bytes. inr (text_container bytes);
}

abbrev pub disk : RocksDb
disk = record {
  Db = String → Option Bytes;
  get = λ d k. inr (d k);
  write = λ d ops. inr (λ k. after_all ops k (d k));
}

abbrev pub empty : String → Option Bytes
empty k = none

abbrev pub codec : Codec Block
codec = record { serialize = λ b. inr []; deserialize = λ bytes. inl "no block" }

abbrev pub empty_cache : {V : Type 0} → String → Option V
empty_cache k = none

abbrev pub lru : {V : Type 0} → LruCache V
lru {V} = record {
  Cache = String → Option V;
  peek = λ s k. s k;
  touch = λ s k. s;
  update = λ s k v. λ j. if str_eq k j then some v else s j;
  put = λ s k v. λ j. if str_eq k j then some v else s j;
  gives_back = λ s k. elim (s k) [ some v ↦ true | none ↦ false ];
  pop = λ s k. λ j. if str_eq k j then none else s j;
  clear = λ s. empty_cache;
}

-- ===== src/Storage/Codec.antt =====
-- The crate `bincode` at one type.
use goud_chain.Prelude.{inr, ◌≡◌}
use goud_chain.Errors.{Fallible}
use goud_chain.Crypto.Externals.{Bytes}

pub record Codec (A : Type 0) : Type 0 where
  pub serialize : A → Fallible Bytes
  pub deserialize : Bytes → Fallible A

-- Every value of the type is written, and is read back.
pub record CodecLaws {A : Type 0} (codec : Codec A) : Type 0 where
  pub serialize-total : (a : A) → (bytes : Bytes) × (codec.serialize a ≡ inr bytes)
  pub deserialize-serialize :
      (a : A) (bytes : Bytes) → codec.serialize a ≡ inr bytes → codec.deserialize bytes ≡ inr a

-- What is written is read back.
abbrev pub IsReadBack : {A : Type 0} → Codec A → Type 0
IsReadBack {A} codec =
    (a : A) (bytes : Bytes) → codec.serialize a ≡ inr bytes → codec.deserialize bytes ≡ inr a

-- ===== src/Crypto/Externals.antt =====
-- The functions of the crates `blake3`, `sha2`, `hex`, `base64`, `aes-gcm` and `ed25519-dalek` that
-- the program calls. Each is a parameter of the model. Bytes are lists of numbers.
use Prim.Native.Char.{code}
use goud_chain.Prelude.{ℕ, ◌+◌, ◌/◌, ◌%◌, ltb, String, List, [], ◌∷◌, ◌++◌, Bool, if◌then◌else◌}
use goud_chain.Errors.{Fallible}

abbrev pub Bytes : Type 0
Bytes = List ℕ

-- The UTF-8 form of a code point.
abbrev pub utf8 : ℕ → Bytes
utf8 c =
    if ltb c 0x80
    then c ∷ []
    else if ltb c 0x800
    then (0xc0 + c / 64) ∷ (0x80 + c % 64) ∷ []
    else if ltb c 0x10000
    then (0xe0 + c / 4096) ∷ (0x80 + c / 64 % 64) ∷ (0x80 + c % 64) ∷ []
    else (0xf0 + c / 262144) ∷ (0x80 + c / 4096 % 64) ∷ (0x80 + c / 64 % 64) ∷ (0x80 + c % 64) ∷ []

-- `text.as_bytes()`
unfoldable pub as_bytes : String → Bytes
as_bytes String.[] = []
as_bytes (String.◌∷◌ c s) = utf8 (code c) ++ as_bytes s

pub record Externals : Type 1 where
  -- `blake3::hash(text.as_bytes()).to_hex().to_string()`
  pub blake3_hex : String → String
  pub sha256 : Bytes → Bytes
  pub hex_encode : Bytes → String
  pub hex_decode : String → Fallible Bytes
  pub base64_encode : Bytes → String
  pub base64_decode : String → Fallible Bytes
  -- `HmacSha256::new_from_slice(key)`, the message, and `finalize`
  pub hmac_sha256 : Bytes → Bytes → Fallible Bytes
  -- `Aes256Gcm::new(key).encrypt(nonce, plaintext)`, and `decrypt`
  pub aes_encrypt : Bytes → Bytes → Bytes → Fallible Bytes
  pub aes_decrypt : Bytes → Bytes → Bytes → Fallible Bytes
  -- `String::from_utf8`
  pub from_utf8 : Bytes → Fallible String
  -- `VerifyingKey::from_bytes`, and `verify` of a message by a signature
  pub VerifyingKey : Type 0
  pub verifying_key : Bytes → Fallible VerifyingKey
  pub verify : VerifyingKey → String → Bytes → Bool

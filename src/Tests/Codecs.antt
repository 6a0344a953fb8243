-- ===== src/Tests/Codecs.antt =====
-- Encodings of the records of the rate limits, one number after the other, and a database that does not
-- fail.
use mathlib.Core.Option as Option
use goud_chain.Prelude.{
  ℕ, zero, suc, ℤ, pos, negsuc, List, [], ◌∷◌, inl, inr, ◌≡◌, refl, ap, sym, ◌∙◌,
}
use goud_chain.Errors.{Fallible, inr_injective}
use goud_chain.Crypto.Externals.{Bytes}
use goud_chain.Storage.Codec.{Codec, CodecLaws}
use goud_chain.Storage.RocksDb.{IsReliable, after_all}
use goud_chain.Storage.Bans.{
  BanLevel, none, warning, write_block_5_min, write_block_1_hr, permanent_write_ban,
  complete_blacklist, ViolationRecord, BanRecord,
}
use goud_chain.Tests.Toy.{disk}

abbrev pub ints_to_bytes : List ℤ → Bytes
ints_to_bytes [] = []
ints_to_bytes (pos n ∷ ts) = 0 ∷ n ∷ ints_to_bytes ts
ints_to_bytes (negsuc n ∷ ts) = 1 ∷ n ∷ ints_to_bytes ts

abbrev pub ints_from_bytes : Bytes → List ℤ
ints_from_bytes (zero ∷ n ∷ bytes) = pos n ∷ ints_from_bytes bytes
ints_from_bytes (suc _ ∷ n ∷ bytes) = negsuc n ∷ ints_from_bytes bytes
ints_from_bytes _ = []

ints_from_bytes-to_bytes : (ts : List ℤ) → ints_from_bytes (ints_to_bytes ts) ≡ ts
ints_from_bytes-to_bytes [] = refl
ints_from_bytes-to_bytes (pos n ∷ ts) = ap (λ ys. pos n ∷ ys) (ints_from_bytes-to_bytes ts)
ints_from_bytes-to_bytes (negsuc n ∷ ts) = ap (λ ys. negsuc n ∷ ys) (ints_from_bytes-to_bytes ts)

abbrev pub read_violations : ℕ → List ℤ → Fallible ViolationRecord
read_violations n [] = inl "no violations"
read_violations n (t ∷ ts) =
    inr (record { count = n; last_violation_timestamp = t; violation_timestamps = ts })

abbrev pub violations_from_bytes : Bytes → Fallible ViolationRecord
violations_from_bytes [] = inl "no violations"
violations_from_bytes (n ∷ bytes) = read_violations n (ints_from_bytes bytes)

abbrev pub violation_codec : Codec ViolationRecord
violation_codec = record {
  serialize =
      λ v. inr (v.count ∷ ints_to_bytes (v.last_violation_timestamp ∷ v.violation_timestamps));
  deserialize = violations_from_bytes;
}

abbrev pub level_number : BanLevel → ℕ
level_number none = 0
level_number warning = 1
level_number write_block_5_min = 2
level_number write_block_1_hr = 3
level_number permanent_write_ban = 4
level_number complete_blacklist = 5

abbrev pub number_level : ℕ → BanLevel
number_level zero = none
number_level (suc zero) = warning
number_level (suc (suc zero)) = write_block_5_min
number_level (suc (suc (suc zero))) = write_block_1_hr
number_level (suc (suc (suc (suc zero)))) = permanent_write_ban
number_level (suc (suc (suc (suc (suc _))))) = complete_blacklist

number_level-level_number : (l : BanLevel) → number_level (level_number l) ≡ l
number_level-level_number none = refl
number_level-level_number warning = refl
number_level-level_number write_block_5_min = refl
number_level-level_number write_block_1_hr = refl
number_level-level_number permanent_write_ban = refl
number_level-level_number complete_blacklist = refl

abbrev pub expiry_times : Option.Option ℤ → List ℤ
expiry_times Option.none = []
expiry_times (Option.some t) = t ∷ []

abbrev pub read_ban : BanLevel → List ℤ → Fallible BanRecord
read_ban level (created ∷ []) =
    inr (record { level = level; expires_at = Option.none; created_at = created })
read_ban level (created ∷ t ∷ _) =
    inr (record { level = level; expires_at = Option.some t; created_at = created })
read_ban level [] = inl "no ban"

abbrev pub ban_from_bytes : Bytes → Fallible BanRecord
ban_from_bytes [] = inl "no ban"
ban_from_bytes (n ∷ bytes) = read_ban (number_level n) (ints_from_bytes bytes)

abbrev pub ban_codec : Codec BanRecord
ban_codec = record {
  serialize =
      λ b. inr (level_number b.level ∷ ints_to_bytes (b.created_at ∷ expiry_times b.expires_at));
  deserialize = ban_from_bytes;
}

pub violation_laws : CodecLaws violation_codec
violation_laws = record {
  serialize-total = λ v. (_, refl);
  deserialize-serialize = λ v bytes h.
      ap violations_from_bytes (sym (inr_injective h))
      ∙ ap (read_violations v.count)
          (ints_from_bytes-to_bytes (v.last_violation_timestamp ∷ v.violation_timestamps));
}

read_ban-expiry_times :
    (level : BanLevel) (created : ℤ) (expiry : Option.Option ℤ)
    → read_ban level (created ∷ expiry_times expiry)
      ≡ inr (record { level = level; expires_at = expiry; created_at = created })
read_ban-expiry_times level created Option.none = refl
read_ban-expiry_times level created (Option.some t) = refl

pub ban_laws : CodecLaws ban_codec
ban_laws = record {
  serialize-total = λ b. (_, refl);
  deserialize-serialize = λ b bytes h.
      ap ban_from_bytes (sym (inr_injective h))
      ∙ ap
          (λ l.
            read_ban l (ints_from_bytes (ints_to_bytes (b.created_at ∷ expiry_times b.expires_at))))
          (number_level-level_number b.level)
      ∙ ap (read_ban b.level) (ints_from_bytes-to_bytes (b.created_at ∷ expiry_times b.expires_at))
      ∙ read_ban-expiry_times b.level b.created_at b.expires_at;
}

pub disk-IsReliable : IsReliable disk
disk-IsReliable = record {
  get-total = λ d k. (d k, refl);
  write-total = λ d ops. (λ k. after_all ops k (d k), refl);
}

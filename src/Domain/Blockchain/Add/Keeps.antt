-- ===== src/Domain/Blockchain/Add/Keeps.antt =====
-- `add_block` (src/domain/blockchain.rs) on a valid chain: when validation accepts the longer chain.
use goud_chain.Prelude.{
  ℕ, ◌≤◌, ◌==◌, ℤ, pos, ◌+ℤ◌, ◌≤ℤ◌, ltb_ℤ, +ℤ_parts, String, map, length, get_last?, Bool-cases,
  false, some, inl, inr, ◌≡◌, sym, ◌∙◌, arith, if◌then◌else◌,
}
use mathlib.Core.Option.{some-injective}
use goud_chain.Errors.{Result, ok, err, invalid_timestamp}
use goud_chain.Constants.{timestamp_tolerance_seconds}
use goud_chain.Crypto.Externals.{Externals, Bytes, as_bytes}
use goud_chain.Domain.Types.{Block, BlockEnvelopeContainer, Json}
use goud_chain.Domain.Block.{verify_all, verify_data}
use goud_chain.Domain.Block.Timestamp.{IsJitter, obfuscate_timestamp-le-tolerance}
use goud_chain.Domain.Blockchain.{Blockchain, next_index}
use goud_chain.Domain.Blockchain.Add.{Draws, wrap_collection, commit_block, add_block}
use goud_chain.Domain.Blockchain.Add.Created.{IsCreated, add_block-eq-ok}
use goud_chain.Domain.Blockchain.Validate.{is_valid, check_block}
use goud_chain.Domain.Blockchain.Validate.Links.{
  IsLinked, IsLinked-check_block, check_block-earlier, check_chain-append,
}

-- `base64` and `serde_json` read back what they wrote.
pub record ReadsBack (x : Externals) (j : Json) : Type 0 where
  pub base64 : (bytes : Bytes) → x.base64_decode (x.base64_encode bytes) ≡ inr bytes
  pub container :
      (c : BlockEnvelopeContainer) (s : String)
      → j.container_to_string c ≡ inr s
      → j.container_from_slice (as_bytes s) ≡ inr c

ltb_ℤ_false : (a b : ℤ) → ltb_ℤ a b ≡ false → b ≤ℤ a
ltb_ℤ_false a b h = ground arith

module _ (x : Externals) (j : Json) (get_encryption_key : Bytes → Bytes → Bytes)
    (reads_back : ReadsBack x j) where
  -- The container of a created block is the one that was put in.
  verify_data-IsCreated :
      (bc : Blockchain) (draws : Draws) (b : Block)
      → IsCreated x j get_encryption_key bc draws b
      → verify_all x (map wrap_collection bc.pending_collections) ≡ ok tt
      → verify_data x j b ≡ ok tt
  unfolding verify_data
  verify_data-IsCreated bc draws b c v =
      let s = c.sealed in
      rw (s.encoded, reads_back.base64 (as_bytes s.json), reads_back.container _ s.json s.written) v

  -- The clock of the node, when it makes the block and when the block is validated: after the time of
  -- the genesis block, and not set back in between.
  pub record IsTimely (draws : Draws) (now : ℕ → ℤ) (i : ℕ) : Type 0 where
    pub made : ℕ
    pub read : ℕ
    pub made_eq : draws.now ≡ pos made
    pub read_eq : now i ≡ pos read
    pub after_genesis : 1704067200 ≤ made
    pub forward : made ≤ read
    pub jitter : IsJitter draws.jitter

  not_future :
      (bc : Blockchain) (draws : Draws) (now : ℕ → ℤ) (i : ℕ) (b : Block)
      → IsCreated x j get_encryption_key bc draws b
      → IsTimely draws now i
      → b.timestamp ≤ℤ now i +ℤ pos timestamp_tolerance_seconds
  not_future bc draws now i b c t =
      rw (c.sealed.timestamp, t.made_eq, t.read_eq)
        (elim (Bool-cases (next_index c.last.index == 0)) [
          | inl e ↦ rw e (omega (arith, +ℤ_parts))
          | inr e ↦
              rw e (obfuscate_timestamp-le-tolerance t.made t.read draws.jitter t.forward t.jitter)
        ])

  created-IsLinked :
      (bc : Blockchain) (draws : Draws) (now : ℕ → ℤ) (i : ℕ) (b : Block)
      (c : IsCreated x j get_encryption_key bc draws b)
      → IsTimely draws now i
      → verify_all x (map wrap_collection bc.pending_collections) ≡ ok tt
      → c.last.timestamp ≤ℤ b.timestamp
      → IsLinked x j bc.validator_config.validators now i c.last b
  created-IsLinked bc draws now i b c t v e =
      let s = c.sealed in
      record {
        hashed = s.hash;
        linked = s.previous_hash;
        not_future = not_future bc draws now i b c t;
        not_earlier = e;
        rooted = s.merkle_root;
        verified = verify_data-IsCreated bc draws b c v;
        assigned = rw (s.index, s.validator) c.assigned;
      }

  -- What validation says of the new block.
  abbrev pub verdict : Block → Block → ℕ → Result (Unit {0})
  verdict last b i = if ltb_ℤ b.timestamp last.timestamp then err (invalid_timestamp i) else ok tt

  check_block-created :
      (bc : Blockchain) (draws : Draws) (now : ℕ → ℤ) (i : ℕ) (b : Block)
      (c : IsCreated x j get_encryption_key bc draws b)
      → IsTimely draws now i
      → verify_all x (map wrap_collection bc.pending_collections) ≡ ok tt
      → check_block x j bc.validator_config.validators now i c.last b ≡ verdict c.last b i
  check_block-created bc draws now i b c t v =
      elim (Bool-cases (ltb_ℤ b.timestamp c.last.timestamp)) [
        | inl e ↦ rw e (
            check_block-earlier x j _ now i c.last b c.sealed.hash c.sealed.previous_hash
              (not_future bc draws now i b c t) e)
        | inr e ↦ rw e (
            IsLinked-check_block x j _ now i c.last b (
              created-IsLinked bc draws now i b c t v (ltb_ℤ_false b.timestamp c.last.timestamp e)))
      ]

  -- A block that `add_block` returns on a valid chain leaves a valid chain, unless its timestamp is
  -- before that of the last block: then `is_valid` fails with `InvalidTimestamp` at the new index. The
  -- clock is not set back, the jitter is in its range, and the pending collections are signed.
  pub add_block-is_valid :
      (bc : Blockchain) (draws : Draws) (now : ℕ → ℤ) (last b : Block)
      → is_valid x j now bc ≡ ok tt
      → get_last? bc.chain ≡ some last
      → IsTimely draws now (length bc.chain)
      → verify_all x (map wrap_collection bc.pending_collections) ≡ ok tt
      → (add_block x j get_encryption_key bc draws).0 ≡ ok b
      → is_valid x j now (add_block x j get_encryption_key bc draws).1 ≡ (
          if ltb_ℤ b.timestamp last.timestamp
          then err (invalid_timestamp (length bc.chain))
          else ok tt)
  unfolding is_valid commit_block
  add_block-is_valid bc draws now last b valid at t v h =
      let (c, state) = add_block-eq-ok x j get_encryption_key bc draws b h in
      let same : c.last ≡ last = some-injective _ _ (sym c.after ∙ at) in
      rw (
        state,
        check_chain-append x j bc.validator_config.validators now bc.chain c.last b c.after,
        valid,
        check_block-created bc draws now (length bc.chain) b c t v,
        same,
      )

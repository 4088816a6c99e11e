-- ===== src/Messages.antt =====
-- The messages that devices and oracles sign: programs/enrg-mvp/src/security/lifecycle.rs,
-- state/oracle.rs, state/oracle_attestation.rs, state/poi.rs and instructions/manifest_verification.rs.
pub mod Injective
pub mod Separation
mod Tests
use enrg.Prelude.{ℕ, zero, suc, ◌+◌, ◌-◌, ◌/◌, ◌%◌, ◌^◌, List, [], ◌∷◌, ◌++◌, u64_max}
use enrg.Prelude.Int.{ℤ, pos, negsuc}
use enrg.Solana.{Pubkey, Bytes, codes}

-- The `n` low bytes of a word, in little-endian order.
unfoldable pub le_bytes : ℕ → ℕ → Bytes
le_bytes zero x = []
le_bytes (suc n) x = (x % 256) ∷ le_bytes n (x / 256)

-- The bits of an `i64`, in two's complement.
abbrev pub i64_bits : ℤ → ℕ
i64_bits (pos n) = n
i64_bits (negsuc n) = u64_max - n

-- `Pubkey::to_bytes`, `u64::to_le_bytes` and `i64::to_le_bytes`
unfoldable pub to_bytes : Pubkey → Bytes
unfolding le_bytes
to_bytes k = le_bytes 32 k

unfoldable pub u64_bytes : ℕ → Bytes
unfolding le_bytes
u64_bytes n = le_bytes 8 n

unfoldable pub i64_bytes : ℤ → Bytes
unfolding le_bytes
i64_bytes t = le_bytes 8 (i64_bits t)

abbrev pub device_register_message_prefix : Bytes
device_register_message_prefix = codes "enrg:device:register"

abbrev pub device_claim_message_prefix : Bytes
device_claim_message_prefix = codes "enrg:device:claim"

abbrev pub device_rotate_message_prefix : Bytes
device_rotate_message_prefix = codes "enrg:device:rotate"

abbrev pub oracle_attest_prefix : Bytes
oracle_attest_prefix = codes "enrg:oracle:attest"

unfoldable pub device_register_message : Pubkey → ℤ → Bytes
unfolding to_bytes i64_bytes
device_register_message device_id register_timestamp =
    device_register_message_prefix ++ (to_bytes device_id ++ i64_bytes register_timestamp)

unfoldable pub device_claim_message : Pubkey → Pubkey → ℕ → ℤ → Bytes
unfolding to_bytes u64_bytes i64_bytes
device_claim_message device_id owner claim_nonce claim_timestamp =
    device_claim_message_prefix
    ++ (to_bytes device_id
        ++ (to_bytes owner ++ (u64_bytes claim_nonce ++ i64_bytes claim_timestamp)))

unfoldable pub device_rotate_message : Pubkey → Pubkey → ℕ → ℤ → Bytes
unfolding to_bytes u64_bytes i64_bytes
device_rotate_message new_device_id owner rotate_nonce rotate_timestamp =
    device_rotate_message_prefix
    ++ (to_bytes new_device_id
        ++ (to_bytes owner ++ (u64_bytes rotate_nonce ++ i64_bytes rotate_timestamp)))

-- `proof_hash` is `[u8; 32]`: its bytes are given.
unfoldable pub oracle_attest_message : Pubkey → ℕ → Bytes → Bytes
unfolding to_bytes u64_bytes
oracle_attest_message device_id nonce proof_hash =
    oracle_attest_prefix ++ (to_bytes device_id ++ (u64_bytes nonce ++ proof_hash))

abbrev pub manifest_sign_message_prefix : Bytes
manifest_sign_message_prefix = codes "enrg:manifest"

-- The identifier is `[u8; 16]`, the hash of the content `[u8; 32]` and the version a `u8`.
unfoldable pub manifest_sign_message : Bytes → Bytes → ℕ → Bytes
manifest_sign_message manifest_id content_hash manifest_version =
    manifest_sign_message_prefix ++ (manifest_id ++ (content_hash ++ (manifest_version ∷ [])))

abbrev pub poi_commit_prefix : Bytes
poi_commit_prefix = codes "enrg:poi:commit"

unfoldable pub poi_commit_message : ℕ → Pubkey → Bytes → Bytes
unfolding to_bytes u64_bytes
poi_commit_message round device_id digest =
    poi_commit_prefix ++ (u64_bytes round ++ (to_bytes device_id ++ digest))

-- `OracleReport`
pub record OracleReport : Type 0 where
  pub oracle : Pubkey
  pub device_id : Pubkey
  pub nonce : ℕ
  pub device_timestamp : ℤ
  pub verified_at : ℤ
  pub energy_wh : ℕ
  pub device_signature : Bytes
  pub oracle_signature : Bytes

unfoldable pub device_message_to_sign : OracleReport → Bytes
unfolding to_bytes u64_bytes i64_bytes
device_message_to_sign r =
    to_bytes r.device_id
    ++ (u64_bytes r.nonce ++ (i64_bytes r.device_timestamp ++ u64_bytes r.energy_wh))

unfoldable pub oracle_message_to_sign : OracleReport → Bytes
unfolding to_bytes u64_bytes i64_bytes
oracle_message_to_sign r =
    to_bytes r.device_id
    ++ (u64_bytes r.nonce
        ++ (i64_bytes r.device_timestamp ++ (i64_bytes r.verified_at ++ u64_bytes r.energy_wh)))

-- `OracleReport::proof_hash`, over the hash that the runtime supplies.
unfoldable pub report_proof_hash : (Bytes → Bytes) → OracleReport → Bytes
report_proof_hash sha256 r = sha256 (device_message_to_sign r)

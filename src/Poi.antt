-- ===== src/Poi.antt =====
-- The commitments of contributions to a round: programs/enrg-mvp/src/instructions/poi_commitment.rs
-- and state/poi.rs.
pub mod Committed
mod Tests
use enrg.Prelude.{ℕ, not, Option, ◌==◌, Result, ok, ErrorCode, require, ◌>>=◌, ◌>>◌}
use enrg.Prelude.Int.{ℤ}
use enrg.Solana.{Pubkey, default_key, Bytes, all_zero, vacant, Runtime}
use enrg.Messages.{to_bytes, poi_commit_message}
use enrg.Ed25519.{verify_ed25519_signature}

pub record PoiCommitment : Type 0 where
  pub device_id : Pubkey
  pub round : ℕ
  pub digest : Bytes
  pub signature : Bytes
  pub committed_at : ℤ

-- The account stands at the address of the round and the device.
unfoldable pub commit_contribution :
    Runtime → Option PoiCommitment → Pubkey → Pubkey → ℕ → Bytes → Bytes → Result PoiCommitment
unfolding verify_ed25519_signature poi_commit_message to_bytes
commit_contribution rt existing device_id instructions round digest signature =
    let message = poi_commit_message round device_id digest in
    do
      vacant existing
      require (not (device_id == default_key)) ErrorCode.invalid_parameter
      require (not (all_zero digest)) ErrorCode.invalid_leaf_hash
      verify_ed25519_signature rt signature (to_bytes device_id) message instructions
      ok (record {
        device_id = device_id;
        round = round;
        digest = digest;
        signature = signature;
        committed_at = rt.now;
      })

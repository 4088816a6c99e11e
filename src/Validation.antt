-- ===== src/Validation.antt =====
-- programs/enrg-mvp/src/security/validation.rs: the checks of a proof's nonce and clocks. The sums
-- and differences of `i64` abort the program when they overflow.
mod Tests
pub mod Window
use enrg.Prelude.{ltb, Result, ok, err, ErrorCode, require, ◌>>=◌, ◌>>◌, ℕ}
use enrg.Prelude.Int.{ℤ, pos, leb_ℤ, add_i64, sub_i64}
use enrg.Constants.{max_clock_skew}
use enrg.Device.{EnergyProducer}

abbrev pub max_proof_age : ℤ
max_proof_age = pos 900

unfoldable pub verify_nonce : EnergyProducer → ℕ → Result (Unit {0})
verify_nonce p nonce = require (ltb p.nonce nonce) ErrorCode.invalid_nonce

unfoldable pub verify_timestamp_with_skew : ℤ → ℤ → ℤ → Result (Unit {0})
verify_timestamp_with_skew now timestamp max_skew = do
  latest ← add_i64 now max_skew
  require (leb_ℤ timestamp latest) ErrorCode.future_timestamp
  age ← sub_i64 now timestamp
  require (leb_ℤ age max_proof_age) ErrorCode.stale_proof

unfoldable pub verify_timestamp : ℤ → ℤ → Result (Unit {0})
unfolding verify_timestamp_with_skew
verify_timestamp now timestamp = verify_timestamp_with_skew now timestamp max_clock_skew

unfoldable pub verify_device_clock : ℤ → ℤ → ℤ → Result (Unit {0})
verify_device_clock device_timestamp verified_at max_skew = do
  latest ← add_i64 verified_at max_skew
  require (leb_ℤ device_timestamp latest) ErrorCode.future_timestamp
  age ← sub_i64 verified_at device_timestamp
  require (leb_ℤ age max_proof_age) ErrorCode.stale_proof

-- ===== src/Reputation.antt =====
-- programs/enrg-mvp/src/state/reputation.rs and instructions/reputation.rs: the score of an owner.
pub mod Score
mod Tests
use enrg.Prelude.{
  ℕ, ◌+◌, ◌-◌, ◌*◌, ◌/◌, min, max, Bool, ◌&&◌, Option, none, some, ltb, leb, ◌==◌, if◌then◌else◌,
  checked_add, saturating_add, saturating_mul, u8_max, u32_max, u64_max, u128_max, Result, ok, err,
  framework, ErrorCode, require, ok_or, ◌>>=◌, ◌>>◌,
}
use enrg.Prelude.Int.{ℤ, pos_part, saturating_sub_i64}
use enrg.Constants.{ers_max_score, ers_premium_threshold}
use enrg.Solana.{Pubkey, Runtime}
use enrg.Math.{fp_scale}
use enrg.Oracle.{OracleRegistry, trusts}

pub record Reputation : Type 0 where
  pub authority : Pubkey
  pub score : ℕ
  pub updated_at : ℤ
  pub total_energy_wh : ℕ
  pub first_seen : ℤ
  pub anomaly_count : ℕ
  pub percentile : ℕ

abbrev pub ers_base_score : ℕ
ers_base_score = 200

-- `uptime_secs.max(0) as u64` is the part of the time above zero.
unfoldable pub compute_ers_score : ℕ → ℤ → ℕ
compute_ers_score total_energy_wh uptime_secs =
    let uptime_days = pos_part uptime_secs / 86_400 in
    let energy_pts = min (total_energy_wh / 2_000_000) 500 in
    let uptime_pts = min uptime_days 300 in
    min (saturating_add u32_max (saturating_add u32_max ers_base_score energy_pts) uptime_pts)
      ers_max_score

unfoldable pub apply_anomaly_penalty : ℕ → ℕ → ℕ
apply_anomaly_penalty score severity =
    let cut_percent = min (saturating_mul u32_max 5 (min (max severity 1) 10)) 50 in
    score - saturating_mul u32_max score cut_percent / 100

unfoldable pub ers_premium_eligible : ℕ → Bool
ers_premium_eligible score = leb ers_premium_threshold score

unfoldable pub ers_pool_bonus_fp : ℕ → ℕ
ers_pool_bonus_fp score =
    saturating_mul u128_max (min score ers_max_score) (fp_scale / 5) / ers_max_score

unfoldable pub initialize_reputation : Runtime → Option Reputation → Pubkey → Result Reputation
initialize_reputation rt (some _) signer = err (framework 0)
initialize_reputation rt none signer = ok (record {
  authority = signer;
  score = ers_base_score;
  updated_at = rt.now;
  total_energy_wh = 0;
  first_seen = rt.now;
  anomaly_count = 0;
  percentile = 20;
})

unfoldable pub report_anomaly :
    Runtime → Reputation → OracleRegistry → Pubkey → ℕ → Result Reputation
report_anomaly rt r registry oracle severity = do
  require (trusts registry oracle) ErrorCode.untrusted_oracle
  require (leb 1 severity && leb severity 10) ErrorCode.invalid_parameter
  count ← ok_or (checked_add u32_max r.anomaly_count 1) ErrorCode.arithmetic_overflow
  ok (record r {
    score = apply_anomaly_penalty r.score severity;
    anomaly_count = count;
    updated_at = rt.now;
  })

unfoldable pub ers_premium_access : Reputation → Bool
unfolding ers_premium_eligible
ers_premium_access r = ers_premium_eligible r.score

-- The score after a mint: the new one without anomalies, and with them half of the way up to it.
unfoldable pub grown_score : Reputation → ℕ → ℕ
grown_score r new_score =
    if r.anomaly_count == 0
    then new_score
    else min (saturating_add u32_max r.score ((min new_score ers_max_score - r.score) / 2))
        ers_max_score

unfoldable pub update_reputation_after_mint : Reputation → ℕ → ℤ → Result Reputation
update_reputation_after_mint r energy_wh now = do
  total ← ok_or (checked_add u64_max r.total_energy_wh energy_wh) ErrorCode.arithmetic_overflow
  let score = grown_score r (compute_ers_score total (saturating_sub_i64 now r.first_seen))
  ok (record r {
    total_energy_wh = total;
    score = score;
    percentile = min (score / 10) 100;
    updated_at = now;
  })

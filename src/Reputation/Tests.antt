-- ===== src/Reputation/Tests.antt =====
-- A reputation that a mint raises.
use enrg.Prelude.{◌≡◌, refl, none, ok}
use enrg.Prelude.Int.{pos, ◌-ℤ◌}
use enrg.Samples.{a_runtime}
use enrg.Reputation.{
  Reputation, compute_ers_score, apply_anomaly_penalty, grown_score, initialize_reputation,
  update_reputation_after_mint,
}

abbrev first_seen : Reputation
first_seen = record {
  authority = 11;
  score = 200;
  updated_at = pos 1_000_000;
  total_energy_wh = 0;
  first_seen = pos 1_000_000;
  anomaly_count = 0;
  percentile = 20;
}

abbrev grown : Reputation
grown = record first_seen {
  score = 212;
  total_energy_wh = 4_000_000;
  percentile = 21;
  updated_at = pos 1_864_000;
}

begins : initialize_reputation a_runtime none 11 ≡ ok first_seen
unfolding initialize_reputation
begins = refl

grows : update_reputation_after_mint first_seen 4_000_000 (pos 1_864_000) ≡ ok grown
unfolding update_reputation_after_mint compute_ers_score grown_score ◌-ℤ◌
grows = refl

penalized : apply_anomaly_penalty 800 1 ≡ 760
unfolding apply_anomaly_penalty
penalized = refl

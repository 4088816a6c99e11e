-- ===== src/Reputation/Score.antt =====
-- The bounds of the score, and its growth.
use enrg.Prelude.{
  ℕ, ◌+◌, ◌-◌, ◌*◌, ◌/◌, ◌≤◌, ◌≡◌, min, max, none, ok, arith, u32_max, saturating_mul,
}
use enrg.Prelude.Int.{ℤ, ◌≤ℤ◌}
use enrg.Constants.{ers_max_score}
use enrg.Solana.{Pubkey, Runtime}
use enrg.Math.{fp_scale}
use enrg.Math.Exp.{mul_mono}
use enrg.Oracle.{OracleRegistry}
use enrg.Reputation.{
  Reputation, compute_ers_score, apply_anomaly_penalty, ers_pool_bonus_fp, initialize_reputation,
  report_anomaly, grown_score, update_reputation_after_mint,
}

-- The score grows with the energy and with the uptime.
pub compute_ers_score_mono :
    (e f : ℕ) (s t : ℤ) → e ≤ f → s ≤ℤ t → compute_ers_score e s ≤ compute_ers_score f t
unfolding compute_ers_score
compute_ers_score_mono e f s t h k = ground arith

penalty_bounds :
    (s c : ℕ)
    → s ≤ ers_max_score
    → 5 ≤ c
    → c ≤ 50
    → (s ≤ 2 * (s - s * c / 100)) × (100 * (s - s * c / 100) ≤ 95 * s + 99)
penalty_bounds s c h low high =
    let p : s * 5 ≤ s * c = mul_mono s s 5 c (omega arith) low in
    let q : s * c ≤ s * 50 = mul_mono s s c 50 (omega arith) high in ground arith

cut_of : ℕ → ℕ
cut_of severity = min (saturating_mul u32_max 5 (min (max severity 1) 10)) 50

cut_bounds : (severity : ℕ) → (5 ≤ cut_of severity) × (cut_of severity ≤ 50)
unfolding cut_of
cut_bounds severity = ground arith

unsaturated : (s c : ℕ) → s ≤ ers_max_score → c ≤ 50 → saturating_mul u32_max s c ≡ s * c
unsaturated s c h k =
    let p : s * c ≤ ers_max_score * 50 = mul_mono s ers_max_score c 50 h k in ground arith

-- A penalty leaves at least half of a score in range, and takes off at least a twentieth of it,
-- up to the rounding of one unit.
pub apply_anomaly_penalty_bounds :
    (score severity : ℕ)
    → score ≤ ers_max_score
    → (score ≤ 2 * apply_anomaly_penalty score severity)
      × (100 * apply_anomaly_penalty score severity ≤ 95 * score + 99)
unfolding apply_anomaly_penalty cut_of
apply_anomaly_penalty_bounds score severity h =
    let (low, high) = cut_bounds severity in
    rw (unsaturated score (cut_of severity) h high)
      (penalty_bounds score (cut_of severity) h low high)

-- A step of a reputation.
infix 40 ◌⟶◌ ◌⟶*◌
pub data ◌⟶◌ : Reputation → Reputation → Type 0 where
  penalized :
      (rt : Runtime) (r out : Reputation) (registry : OracleRegistry) (oracle : Pubkey)
      (severity : ℕ)
      → report_anomaly rt r registry oracle severity ≡ ok out
      → r ⟶ out
  minted :
      (r out : Reputation) (energy_wh : ℕ) (now : ℤ)
      → update_reputation_after_mint r energy_wh now ≡ ok out
      → r ⟶ out

pub data ◌⟶*◌ : Reputation → Reputation → Type 0 where
  stays : {r : Reputation} → r ⟶* r
  steps : {a b c : Reputation} → a ⟶* b → b ⟶ c → a ⟶* c

abbrev pub InRange : Reputation → Type 0
InRange r = (r.score ≤ ers_max_score) × (r.percentile ≤ 100)

⟶-InRange : (a b : Reputation) → a ⟶ b → InRange a → InRange b
unfolding report_anomaly update_reputation_after_mint apply_anomaly_penalty compute_ers_score
    grown_score
⟶-InRange _ _ (penalized rt r out registry oracle severity h) w = ground arith
⟶-InRange _ _ (minted r out energy_wh now h) w = ground arith

-- After any successful mints and reported anomalies on a new reputation, its score is at most
-- 1,000 and its percentile at most 100.
pub score-InRange :
    (rt : Runtime) (signer : Pubkey) (r out : Reputation)
    → initialize_reputation rt none signer ≡ ok r
    → r ⟶* out
    → InRange out
unfolding initialize_reputation
score-InRange rt signer r out h stays = ground arith
score-InRange rt signer r out h (steps {b = b} before last) =
    ⟶-InRange b out last (score-InRange rt signer r b h before)

-- The bonus in a pool is at most a fifth, and grows with the score.
pub ers_pool_bonus_fp_mono :
    (s t : ℕ)
    → s ≤ t
    → (ers_pool_bonus_fp s ≤ ers_pool_bonus_fp t) × (5 * ers_pool_bonus_fp t ≤ fp_scale)
unfolding ers_pool_bonus_fp
ers_pool_bonus_fp_mono s t h = ground arith

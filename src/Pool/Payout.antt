-- ===== src/Pool/Payout.antt =====
-- A distribution pays its members exactly the reward of the pool.
use enrg.Prelude.{
  ℕ, suc, ◌+◌, ◌*◌, ◌≤◌, ◌<◌, min, ◌≡◌, refl, ap, arith, inl, inr, List, [], ◌∷◌, sum, length, leb,
  Bool-cases, saturating_add, u64_max, u128_max,
}
use enrg.Math.{fp_scale, add_or_max}
use enrg.Math.Exp.{mul_mono}
use enrg.Pool.{pool_reward_for_share}
use enrg.Pool.Shares.{reward_le, le_cancel}
use enrg.Pool.Distribute.{
  Member, weighted, weighted_sum_from, share_of_total, rewards_from, weights,
}

-- The rewards by weight, before the last is replaced by the remainder.
unfoldable pub payout_sum : ℕ → ℕ → List ℕ → ℕ
payout_sum reward total [] = 0
payout_sum reward total (w ∷ ws) =
    pool_reward_for_share reward (share_of_total w total) + payout_sum reward total ws

unfoldable pub share_sum : ℕ → List ℕ → ℕ
share_sum total [] = 0
share_sum total (w ∷ ws) = share_of_total w total + share_sum total ws

payout_le_share :
    (reward total : ℕ) (ws : List ℕ)
    → payout_sum reward total ws * fp_scale ≤ reward * share_sum total ws
unfolding payout_sum share_sum
payout_le_share reward total [] = omega arith
payout_le_share reward total (w ∷ ws) =
    ground (arith, payout_le_share reward total ws, reward_le reward (share_of_total w total))

share_of_total_le : (w total : ℕ) → share_of_total w total * total ≤ w * fp_scale
unfolding share_of_total
share_of_total_le w total = ground arith

share_sum_le : (total : ℕ) (ws : List ℕ) → share_sum total ws * total ≤ sum ws * fp_scale
unfolding share_sum sum
share_sum_le total [] = omega arith
share_sum_le total (w ∷ ws) = ground (arith, share_sum_le total ws, share_of_total_le w total)

-- Where the sum of the weights is past a u128, each share is at most one unit.
share_saturated : (w : ℕ) → share_of_total w u128_max ≤ 1
unfolding share_of_total
share_saturated w = ground arith

share_sum_saturated : (ws : List ℕ) → share_sum u128_max ws ≤ length ws
unfolding share_sum
share_sum_saturated [] = omega arith
share_sum_saturated (w ∷ ws) = omega (arith, share_sum_saturated ws, share_saturated w)

-- At most as many units as the scale has, so that the shares are at most the whole.
pub share_sum-le-scale :
    (total : ℕ) (ws : List ℕ)
    → 0 < total
    → total ≡ min (sum ws) u128_max
    → length ws ≤ fp_scale
    → share_sum total ws ≤ fp_scale
share_sum-le-scale total ws above e few = elim (Bool-cases (leb (sum ws) u128_max)) [
  | inl fits ↦
      let same : total ≡ sum ws = ground arith in
      le_cancel (share_sum total ws) fp_scale total above
        (omega (arith, share_sum_le total ws, ap (λ t. fp_scale * t) same))
  | inr past ↦
      let full : total ≡ u128_max = ground arith in rw full (omega (arith, share_sum_saturated ws))
]

pub payout_sum_le :
    (reward total : ℕ) (ws : List ℕ)
    → share_sum total ws ≤ fp_scale
    → payout_sum reward total ws ≤ reward
payout_sum_le reward total ws whole =
    le_cancel (payout_sum reward total ws) reward fp_scale (omega arith) (
      omega (
        arith,
        payout_le_share reward total ws,
        mul_mono reward reward (share_sum total ws) fp_scale (omega arith) whole,
      ))

-- The last member receives what the others leave.
pub rewards_from-sum :
    (reward total paid : ℕ) (w : ℕ) (ws : List ℕ)
    → reward ≤ u64_max
    → paid + payout_sum reward total (w ∷ ws) ≤ reward
    → paid + sum (rewards_from reward total paid (w ∷ ws)) ≡ reward
unfolding rewards_from payout_sum sum
rewards_from-sum reward total paid w [] small h = omega arith
rewards_from-sum reward total paid w (v ∷ ws) small h =
    let pay = pool_reward_for_share reward (share_of_total w total) in
    let after : saturating_add u64_max paid pay ≡ paid + pay = omega arith in
    let rest = rewards_from-sum reward total (paid + pay) v ws small (omega arith) in
    rw after (omega (arith, rest))

pub length-rewards_from :
    (reward total paid : ℕ) (ws : List ℕ) → length (rewards_from reward total paid ws) ≡ length ws
unfolding rewards_from
length-rewards_from reward total paid [] = refl
length-rewards_from reward total paid (w ∷ []) = refl
length-rewards_from reward total paid (w ∷ v ∷ ws) = ap suc (
    length-rewards_from reward total
      (saturating_add u64_max paid (pool_reward_for_share reward (share_of_total w total)))
      (v ∷ ws))

pub length-weights : (energy : ℕ) (ms : List Member) → length (weights energy ms) ≡ length ms
unfolding weights
length-weights energy [] = refl
length-weights energy (m ∷ ms) = ap suc (length-weights energy ms)

pub weighted_sum_from-min :
    (acc energy : ℕ) (ms : List Member)
    → acc ≤ u128_max
    → weighted_sum_from acc energy ms ≡ min (acc + sum (weights energy ms)) u128_max
unfolding weighted_sum_from weights sum
weighted_sum_from-min acc energy [] h = omega arith
weighted_sum_from-min acc energy (m ∷ ms) h =
    let w = weighted energy m in
    let next : add_or_max acc w ≡ min (acc + w) u128_max = ground arith in
    rw next (omega (arith, weighted_sum_from-min (min (acc + w) u128_max) energy ms (omega arith)))

-- ===== src/Pool/Shares.antt =====
-- The shares of a pool add up to no more than the whole.
use enrg.Prelude.{ℕ, ◌*◌, ◌≤◌, ◌<◌, List, [], ◌∷◌, map, sum, arith}
use enrg.Constants.{pool_fp_scale}
use enrg.Math.Exp.{mul_mono}
use enrg.Pool.{pool_share_fp, pool_reward_for_share}

-- A payout is no more than its share of the reward.
pub reward_le :
    (reward share : ℕ) → pool_reward_for_share reward share * pool_fp_scale ≤ reward * share
unfolding pool_reward_for_share
reward_le reward share = ground arith

share_le : (c total : ℕ) → pool_share_fp c total * total ≤ c * pool_fp_scale
unfolding pool_share_fp
share_le c total = ground arith

abbrev pub payouts : ℕ → ℕ → List ℕ → List ℕ
payouts reward total contributions =
    map (λ c. pool_reward_for_share reward (pool_share_fp c total)) contributions

payouts_le :
    (reward total : ℕ) (cs : List ℕ)
    → sum (payouts reward total cs) * pool_fp_scale
      ≤ reward * sum (map (λ c. pool_share_fp c total) cs)
unfolding sum
payouts_le reward total [] = omega arith
payouts_le reward total (c ∷ cs) =
    ground (arith, payouts_le reward total cs, reward_le reward (pool_share_fp c total))

shares_le :
    (total : ℕ) (cs : List ℕ)
    → sum (map (λ c. pool_share_fp c total) cs) * total ≤ sum cs * pool_fp_scale
unfolding sum
shares_le total [] = omega arith
shares_le total (c ∷ cs) = ground (arith, shares_le total cs, share_le c total)

pub le_cancel : (a b k : ℕ) → 0 < k → a * k ≤ b * k → a ≤ b
le_cancel a b k pos_k h = grind arith

-- The payouts of a reward among members whose contributions add up to at most the total of the
-- pool, which is above zero, are together at most the reward.
pub payouts-le :
    (reward total : ℕ) (cs : List ℕ)
    → 0 < total
    → sum cs ≤ total
    → sum (payouts reward total cs) ≤ reward
payouts-le reward total cs some_total h =
    let shares = sum (map (λ c. pool_share_fp c total) cs) in
    let whole : shares ≤ pool_fp_scale = le_cancel shares pool_fp_scale total some_total (
      omega (
        arith,
        shares_le total cs,
        mul_mono (sum cs) total pool_fp_scale pool_fp_scale h (omega arith),
      )) in
    le_cancel (sum (payouts reward total cs)) reward pool_fp_scale (omega arith) (
      omega (
        arith,
        payouts_le reward total cs,
        mul_mono reward reward shares pool_fp_scale (omega arith) whole,
      ))

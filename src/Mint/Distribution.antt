-- ===== src/Mint/Distribution.antt =====
-- How a reward is split, and what the mint pays out.
use enrg.Prelude.{ℕ, ◌+◌, ◌-◌, ◌*◌, ◌/◌, ◌≤◌, ◌≡◌, ok, arith, u64_max}
use enrg.Mint.{Split, split_reward, percent_of}

-- The amount of every account, in the order of the calls.
abbrev pub amount_of : Split → ℕ
amount_of s = s.user + s.buyback + s.staking + s.dao + s.emergency

-- The owner has 85 percent rounded down; the fee is the rest, of which the buyback, the staking fund
-- and the treasury have 20, 40 and 30 percent rounded down, and the emergency fund what is left.
abbrev pub shares_of : ℕ → Split
shares_of reward =
    let user = reward * 85 / 100 in
    let fee = reward - user in
    record {
      user = user;
      buyback = fee * 20 / 100;
      staking = fee * 40 / 100;
      dao = fee * 30 / 100;
      emergency = fee - fee * 20 / 100 - fee * 40 / 100 - fee * 30 / 100;
    }

percent_of-value : (a p : ℕ) → a * p ≤ u64_max → percent_of a p ≡ ok (a * p / 100)
percent_of-value a p h = ground arith

-- Every reward whose product with 85 fits a word is split without an error: the owner has 85
-- percent rounded down; of the rest, the buyback, the staking fund and the treasury have 20, 40
-- and 30 percent rounded down, and the emergency fund what is left.
pub split_reward-shares_of :
    (reward : ℕ) → reward * 85 ≤ u64_max → split_reward reward ≡ ok (shares_of reward)
unfolding split_reward
split_reward-shares_of reward h = ground arith

-- Whenever a reward is split, its five amounts add up to the reward, and the owner's amount is 85
-- percent of it rounded down.
pub split_reward_conserves :
    (reward : ℕ) (s : Split)
    → split_reward reward ≡ ok s
    → (amount_of s ≡ reward) × (100 * s.user ≤ 85 * reward) × (85 * reward ≤ 100 * s.user + 99)
unfolding split_reward
split_reward_conserves reward s h = ground arith

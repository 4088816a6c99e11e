-- ===== src/Pool/Distribute.antt =====
-- programs/enrg-mvp/src/instructions/pool.rs: distribute_pool. Four remaining accounts stand for a
-- member. The handler reads them again before paying; none of what it reads has changed then. Its
-- last loop writes zeros into copies of the contributions, which nothing stores, so that the
-- accounts of the members stay as they are.
use enrg.Prelude.{
  ℕ, ◌-◌, ◌*◌, ◌/◌, min, List, [], ◌∷◌, ltb, leb, ◌==◌, length, contains, map_or, checked_add,
  checked_mul, saturating_add, u64_max, u128_max, Result, ok, err, framework, ErrorCode, require,
  ok_or, ◌>>=◌, ◌>>◌,
}
use enrg.Solana.{Pubkey, Runtime, TokenAccount, mint_to}
use enrg.Messages.{to_bytes}
use enrg.Math.{fp_scale, fp_mul, add_or_max, calculate_reward}
use enrg.Device.{EnergyProducer}
use enrg.Reputation.{Reputation, ers_pool_bonus_fp}
use enrg.Vault.{Vault, TokenMint}
use enrg.Pool.{
  Pool, PoolContribution, pool_share_seed, pool_share_fp, pool_reward_for_share,
  pool_threshold_reached,
}

-- A remaining account, by what its data decode to.
pub data RemainingAccount : Type 0 where
  producer_account : Pubkey → EnergyProducer → RemainingAccount
  share_account : PoolContribution → RemainingAccount
  token_account : TokenAccount → RemainingAccount
  reputation_account : Reputation → RemainingAccount
  other_account : RemainingAccount

pub record Member : Type 0 where
  pub producer_key : Pubkey
  pub producer : EnergyProducer
  pub share : PoolContribution
  pub ata : TokenAccount
  pub reputation : Reputation

pub record DistributePool : Type 0 where
  pub pool : Pool
  pub vault : Vault
  pub token_mint : TokenMint
  pub mint : Pubkey
  pub authority : Pubkey
  pub remaining_accounts : List RemainingAccount

-- The four `try_from`.
unfoldable pub as_member :
    RemainingAccount → RemainingAccount → RemainingAccount → RemainingAccount → Result Member
as_member (producer_account key producer) (share_account share) (token_account ata)
      (reputation_account reputation) =
    ok (record {
      producer_key = key;
      producer = producer;
      share = share;
      ata = ata;
      reputation = reputation;
    })
as_member _ _ _ _ = err (framework 0)

unfoldable pub check_member : Runtime → Pool → Pubkey → Member → Result (Unit {0})
check_member rt pool mint m = do
  require (contains m.producer_key pool.producers) ErrorCode.not_in_pool
  require (m.share.pool == pool.key) ErrorCode.invalid_parameter
  require (m.share.producer == m.producer_key) ErrorCode.invalid_parameter
  require (m.reputation.authority == m.producer.authority) ErrorCode.invalid_parameter
  require (m.ata.owner == m.producer.authority) ErrorCode.unauthorized_token_account_owner
  require (m.ata.mint == mint) ErrorCode.destination_mint_mismatch
  require
      (m.share.key
        == rt.find_program_address
            (pool_share_seed ∷ to_bytes pool.key ∷ to_bytes m.producer_key ∷ []))
      ErrorCode.invalid_parameter
  ok tt

-- The first pass. The handler has tested that there are four accounts for each member.
unfoldable pub read_members : Runtime → Pool → Pubkey → List RemainingAccount → Result (List Member)
unfolding as_member check_member
read_members rt pool mint [] = ok []
read_members rt pool mint (p ∷ s ∷ a ∷ r ∷ rest) = do
  m ← as_member p s a r
  check_member rt pool mint m
  ms ← read_members rt pool mint rest
  ok (m ∷ ms)
read_members rt pool mint _ = err (framework 0)

-- `raw.checked_add(fp_mul(bonus, raw)).unwrap_or(u128::MAX)`
unfoldable pub weighted : ℕ → Member → ℕ
weighted energy_total m =
    let raw = pool_share_fp m.share.energy_wh energy_total in
    add_or_max raw (fp_mul (ers_pool_bonus_fp m.reputation.score) raw)

unfoldable pub weighted_sum_from : ℕ → ℕ → List Member → ℕ
unfolding weighted
weighted_sum_from acc energy_total [] = acc
weighted_sum_from acc energy_total (m ∷ ms) =
    weighted_sum_from (add_or_max acc (weighted energy_total m)) energy_total ms

unfoldable pub share_of_total : ℕ → ℕ → ℕ
share_of_total weighted weighted_sum =
    map_or (checked_mul u128_max weighted fp_scale) 0 (λ v. v / weighted_sum)

-- The second pass: the rewards of the weights, after `distributed` was paid. The last member takes
-- the remainder.
unfoldable pub rewards_from : ℕ → ℕ → ℕ → List ℕ → List ℕ
unfolding share_of_total
rewards_from total_reward weighted_sum distributed [] = []
rewards_from total_reward weighted_sum distributed (w ∷ []) = (total_reward - distributed) ∷ []
rewards_from total_reward weighted_sum distributed (w ∷ v ∷ ws) =
    let reward = pool_reward_for_share total_reward (share_of_total w weighted_sum) in
    reward
    ∷ rewards_from total_reward weighted_sum (saturating_add u64_max distributed reward) (v ∷ ws)

unfoldable pub weights : ℕ → List Member → List ℕ
unfolding weighted
weights energy_total [] = []
weights energy_total (m ∷ ms) = weighted energy_total m ∷ weights energy_total ms

-- The calls of `mint_to`, each account with its reward.
unfoldable pub mint_rewards : Runtime → List Member → List ℕ → Result (Unit {0})
mint_rewards rt (m ∷ ms) (r ∷ rs) = do rt.invoke (mint_to m.ata.key r); mint_rewards rt ms rs
mint_rewards rt _ _ = ok tt

-- What a distribution stores, and what it minted to whom.
pub record Distribution : Type 0 where
  pub pool : Pool
  pub vault : Vault
  pub members : List Member
  pub rewards : List ℕ

-- The reward of the pool, and the supply with it.
unfoldable pub pool_reward : Pool → Vault → Result (ℕ × ℕ)
pool_reward pool vault =
    let total_reward = calculate_reward (min pool.total_energy u64_max) vault.total_supply in
    do
      require (ltb 0 total_reward) ErrorCode.zero_amount_mint
      new_supply ←
          ok_or (checked_add u64_max vault.total_supply total_reward) ErrorCode.arithmetic_overflow
      require (leb new_supply vault.max_supply) ErrorCode.supply_limit_exceeded
      ok (total_reward, new_supply)

-- The handler up to the weights.
unfoldable pub admit_members : Runtime → DistributePool → Result (List Member)
unfolding read_members
admit_members rt c = do
  require (c.mint == c.token_mint.mint) ErrorCode.invalid_parameter
  require (c.authority == c.pool.authority) ErrorCode.unauthorized
  require (pool_threshold_reached c.pool.total_energy c.pool.threshold)
      ErrorCode.pool_threshold_not_reached
  require (ltb 0 (length c.pool.producers)) ErrorCode.invalid_parameter
  require (length c.remaining_accounts == length c.pool.producers * 4) ErrorCode.invalid_parameter
  read_members rt c.pool c.mint c.remaining_accounts

unfoldable pub distribute_pool : Runtime → DistributePool → Result Distribution
unfolding admit_members weighted_sum_from pool_reward rewards_from weights mint_rewards
distribute_pool rt c = do
  members ← admit_members rt c
  let weighted_sum = weighted_sum_from 0 c.pool.total_energy members
  require (ltb 0 weighted_sum) ErrorCode.invalid_parameter
  (total_reward, new_supply) ← pool_reward c.pool c.vault
  let rewards = rewards_from total_reward weighted_sum 0 (weights c.pool.total_energy members)
  mint_rewards rt members rewards
  ok (record {
    pool = record c.pool { total_energy = 0 };
    vault = record c.vault { total_supply = new_supply };
    members = members;
    rewards = rewards;
  })

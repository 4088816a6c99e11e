-- ===== src/Pool/Tests.antt =====
-- Three members share a reward; two members join a pool that is then distributed.
use enrg.Math.{energy_per_src}
use enrg.Math.{reward_for_energy}
use enrg.Reputation.{ers_pool_bonus_fp}
use enrg.Math.{fp_mul}
use enrg.Pool.{pool_threshold_reached}
use enrg.Prelude.{distinct}
use enrg.Prelude.{
  ℕ, ◌+◌, ◌≤◌, min, ◌≡◌, refl, true, none, sum, length, All, contains, List, [], ◌∷◌, ◌++◌, arith,
  ok, u64_max,
}
use enrg.Prelude.Int.{pos}
use enrg.Solana.{Pubkey, default_key, TokenAccount}
use enrg.Samples.{a_runtime, a_producer, a_vault, a_token_mint}
use enrg.Math.{calculate_reward}
use enrg.Reputation.{Reputation}
use enrg.Pool.{Pool, PoolContribution, pool_share_fp, pool_reward_for_share}
use enrg.Pool.Shares.{payouts}
use enrg.Pool.Handlers.{IsPool, create_pool, join_pool}
use enrg.Pool.Distribute.{RemainingAccount, Member, DistributePool, Distribution, distribute_pool}
use enrg.Pool.Total.{IsPaid, AreMinted, distribute_pool_total}

shared : payouts 1_000 1_000_000 (400_000 ∷ 350_000 ∷ 250_000 ∷ []) ≡ 400 ∷ 350 ∷ 250 ∷ []
unfolding pool_share_fp pool_reward_for_share
shared = refl

abbrev new_pool : Pool
new_pool = record {
  key = 50;
  authority = 1;
  total_energy = 0;
  threshold = 1_000_000;
  producers = [];
  is_active = true;
  created_at = pos 1_000_000;
}

creates : create_pool a_runtime none 50 1 0 ≡ ok new_pool
unfolding create_pool
creates = refl

abbrev joined_pool : Pool
joined_pool = record new_pool { producers = 40 ∷ [] }

abbrev no_share : PoolContribution
no_share = record {
  key = 7;
  pool = default_key;
  producer = default_key;
  energy_wh = 0;
  updated_at = pos 0;
}

abbrev first_member : PoolContribution
first_member = record {
  key = 7;
  pool = 50;
  producer = 40;
  energy_wh = 0;
  updated_at = pos 1_000_000;
}

joins : join_pool a_runtime new_pool 40 no_share ≡ ok (joined_pool, first_member)
unfolding join_pool contains
joins = refl

new_pool-IsPool : IsPool new_pool
unfolding distinct
new_pool-IsPool = record { different = refl; bounded = omega arith }

abbrev full_pool : Pool
full_pool = record new_pool { producers = 40 ∷ 41 ∷ []; total_energy = 1_000_000 }

full_pool-IsPool : IsPool full_pool
unfolding distinct
full_pool-IsPool = record { different = refl; bounded = omega arith }

abbrev a_reputation : Reputation
a_reputation = record {
  authority = 11;
  score = 500;
  updated_at = pos 0;
  total_energy_wh = 0;
  first_seen = pos 0;
  anomaly_count = 0;
  percentile = 0;
}

abbrev account_of : Pubkey → TokenAccount
account_of key = record { key = key; mint = 20; owner = 11; amount = 0 }

abbrev share_of : Pubkey → ℕ → PoolContribution
share_of producer energy = record {
  key = 7;
  pool = 50;
  producer = producer;
  energy_wh = energy;
  updated_at = pos 0;
}

abbrev four_of : Pubkey → ℕ → Pubkey → List RemainingAccount
four_of producer energy ata =
    RemainingAccount.producer_account producer a_producer
    ∷ RemainingAccount.share_account (share_of producer energy)
    ∷ RemainingAccount.token_account (account_of ata)
    ∷ RemainingAccount.reputation_account a_reputation
    ∷ []

abbrev member_of : Pubkey → ℕ → Pubkey → Member
member_of producer energy ata = record {
  producer_key = producer;
  producer = a_producer;
  share = share_of producer energy;
  ata = account_of ata;
  reputation = a_reputation;
}

abbrev a_distribution : DistributePool
a_distribution = record {
  pool = full_pool;
  vault = a_vault;
  token_mint = a_token_mint;
  mint = 20;
  authority = 1;
  remaining_accounts = four_of 40 600_000 60 ++ four_of 41 400_000 61;
}

abbrev distributed : Distribution
distributed = record {
  pool = record full_pool { total_energy = 0 };
  vault = record a_vault { total_supply = 1_000_000_000 };
  members = member_of 40 600_000 60 ∷ member_of 41 400_000 61 ∷ [];
  rewards = 600_000_000 ∷ 400_000_000 ∷ [];
}

distributes : distribute_pool a_runtime a_distribution ≡ ok distributed
unfolding distribute_pool pool_threshold_reached contains pool_share_fp fp_mul ers_pool_bonus_fp
    calculate_reward reward_for_energy energy_per_src pool_reward_for_share
distributes = refl

-- The two groups of accounts may be those of one member.
abbrev one_member_twice : DistributePool
one_member_twice = record a_distribution {
  remaining_accounts = four_of 40 600_000 60 ++ four_of 40 600_000 60;
}

pays_one_twice :
    distribute_pool a_runtime one_member_twice
    ≡ ok (record distributed {
      members = member_of 40 600_000 60 ∷ member_of 40 600_000 60 ∷ [];
      rewards = 500_000_000 ∷ 500_000_000 ∷ [];
    })
unfolding distribute_pool pool_threshold_reached contains pool_share_fp fp_mul ers_pool_bonus_fp
    calculate_reward reward_for_energy energy_per_src pool_reward_for_share
pays_one_twice = refl

distribute_pool_total_example :
    (distributed.vault.total_supply ≡ a_vault.total_supply + sum distributed.rewards)
    × (distributed.vault.total_supply ≤ a_vault.max_supply)
    × (sum distributed.rewards ≡ calculate_reward (min 1_000_000 u64_max) 0)
    × (length distributed.rewards ≡ length distributed.members)
    × (length distributed.members ≡ length full_pool.producers)
    × All (IsPaid full_pool 20) distributed.members
    × AreMinted a_runtime distributed.members distributed.rewards
    × (a_distribution.authority ≡ full_pool.authority)
    × (distributed.pool.total_energy ≡ 0)
distribute_pool_total_example =
    distribute_pool_total a_runtime a_distribution distributed full_pool-IsPool distributes

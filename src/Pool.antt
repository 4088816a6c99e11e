-- ===== src/Pool.antt =====
-- programs/enrg-mvp/src/state/pool.rs: a pool of producers and the share of each. Handlers and
-- Distribute hold instructions/pool.rs.
pub mod Shares
pub mod Handlers
pub mod Distribute
pub mod Payout
pub mod Total
mod Tests
use enrg.Prelude.{
  ℕ, ◌+◌, ◌*◌, ◌/◌, min, Bool, List, Option, none, some, ◌==◌, if◌then◌else◌, map_or, leb,
  checked_mul, u128_max,
}
use enrg.Prelude.Int.{ℤ}
use enrg.Solana.{Pubkey, Bytes, codes}
use enrg.Constants.{pool_fp_scale}

pub record Pool : Type 0 where
  pub key : Pubkey
  pub authority : Pubkey
  pub total_energy : ℕ
  pub threshold : ℕ
  pub producers : List Pubkey
  pub is_active : Bool
  pub created_at : ℤ

-- `b"pool-share"`
abbrev pub pool_share_seed : Bytes
pool_share_seed = codes "pool-share"

-- `Pool::MAX_PRODUCERS`
abbrev pub max_producers : ℕ
max_producers = 100

pub record PoolContribution : Type 0 where
  pub key : Pubkey
  pub pool : Pubkey
  pub producer : Pubkey
  pub energy_wh : ℕ
  pub updated_at : ℤ

unfoldable pub pool_share_fp : ℕ → ℕ → ℕ
pool_share_fp contribution total =
    if total == 0
    then 0
    else map_or (checked_mul u128_max contribution pool_fp_scale) 0 (λ v. v / total)

-- The result is at most `total_reward`, so that `as u64` keeps it.
unfoldable pub pool_reward_for_share : ℕ → ℕ → ℕ
pool_reward_for_share total_reward share_fp =
    min (map_or (checked_mul u128_max total_reward share_fp) 0 (λ v. v / pool_fp_scale))
      total_reward

unfoldable pub pool_threshold_reached : ℕ → ℕ → Bool
pool_threshold_reached total_energy threshold = leb threshold total_energy

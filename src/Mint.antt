-- ===== src/Mint.antt =====
-- programs/enrg-mvp/src/instructions/mint.rs: `mint_energy`, which turns a signed report of energy into
-- tokens. Its stages are functions below, in the order of the handler; what a stage reads of the
-- device is the record after the month was rolled. Of the events, the one that says how the reward
-- was split is kept.
mod Accounts
mod Checks
mod Payments
pub mod Distribution
pub mod Admission
pub mod Effects
pub mod History
pub mod Month
pub mod Unrated
mod Tests
unfoldable pub use Accounts.*
unfoldable pub use Checks.*
unfoldable pub use Payments.*
use enrg.Prelude.{
  ℕ, ◌+◌, Bool, true, false, not, ◌||◌, Option, none, some, List, [], ◌∷◌, ◌==◌, if◌then◌else◌,
  contains, bytes_eq, checked_add, checked_sub, checked_mul, checked_div, u64_max, u128_max, ◌%◌,
  Result, ok, err, code, ErrorCode, require, ok_or, ◌>>=◌, ◌>>◌,
}
use enrg.Prelude.Int.{ℤ}
use enrg.Constants.{
  buyback_percent, staking_percent, dao_percent, instructions_sysvar_id, enrg_profile_program_id,
}
use enrg.Solana.{Pubkey, Bytes, Runtime, TokenAccount, mint_to}
use enrg.Messages.{
  OracleReport, to_bytes, u64_bytes, device_message_to_sign, oracle_message_to_sign,
  report_proof_hash,
}
use enrg.Ed25519.{verify_ed25519_signature}
use enrg.Device.{EnergyProducer, roll_month}
use enrg.Validation.{verify_nonce}
use enrg.Policy.{PolicyRegistry, evaluate_preamble, evaluate_reward}
use enrg.Oracle.{OracleRegistry, trusts}
use enrg.Quorum.{OracleAttestation, OracleQuorumConfig}
use enrg.Vault.{Vault, TokenMint}
use enrg.Profile.{EnergyProfile, record_production_authorized}
use enrg.Reputation.{Reputation, update_reputation_after_mint}
use enrg.Pool.{pool_share_seed, Pool, PoolContribution}
use enrg.Math.{calculate_reward_dynamic, update_energy_window_u128}

-- The network's window, at the clock.
unfoldable pub roll_network : Runtime → Vault → ℕ → Result Vault
roll_network rt v energy_wh = do
  window ←
      update_energy_window_u128 v.network_energy_30d v.network_energy_updated_at rt.now energy_wh
  ok (record v { network_energy_30d = window; network_energy_updated_at = rt.now })

-- The reward, from the profile as it was read before the call that records the production; `as u64`
-- keeps the low 64 bits of its window.
unfoldable pub reward_of : OracleReport → Vault → EnergyProfile → ℕ
reward_of report v profile =
    calculate_reward_dynamic report.energy_wh v.total_supply
      (profile.device_energy_30d % (u64_max + 1)) v.network_energy_30d

-- The policy's word on the reward, and the new supply.
unfoldable pub approve_reward : MintContext → Vault → ℕ → Result ℕ
approve_reward c v reward = do
  evaluate_reward (record {
    policy = c.policy_registry;
    reward = reward;
    vault_total_supply = v.total_supply;
    vault_max_supply = v.max_supply;
  })
  ok_or (checked_add u64_max v.total_supply reward) ErrorCode.arithmetic_overflow

-- The part from the split on, with the producer, the profile and the vault as written before.
unfoldable pub disburse :
    Runtime → MintContext → MintState → OracleReport → ℕ → ℕ → Result (MintState × Split)
disburse rt c s report reward new_supply = do
  split ← split_reward reward
  pay_out rt c split
  vault ← credit_vault s.vault new_supply report.energy_wh
  reputation ← credit_reputation s.reputation report.energy_wh rt.now
  pools ← credit_pool rt c s.pool s.pool_share report.energy_wh
  let (pool, pool_share) = pools
  ok (
    record {
      producer = s.producer;
      vault = vault;
      profile = s.profile;
      reputation = reputation;
      pool = pool;
      pool_share = pool_share;
    },
    split,
  )

-- The part after the checks: the network's window, the call that records the production, the
-- device's counters, the reward and its payment.
unfoldable pub settle :
    Runtime → MintContext → MintState → OracleReport → Result (MintState × Split)
settle rt c s report = do
  network ← roll_network rt s.vault report.energy_wh
  profile ←
      record_production_authorized rt s.profile c.mint_authority c.producer_owner report.energy_wh
        rt.now
  producer ← credit_producer (roll_month s.producer rt.now) report
  let reward = reward_of report network s.profile
  new_supply ← approve_reward c network reward
  disburse rt c (record s { producer = producer; vault = network; profile = profile }) report reward
      new_supply

unfoldable pub mint_energy :
    Runtime → MintContext → MintState → OracleReport → Result (MintState × Split)
mint_energy rt c s report = admit rt c s report >> settle rt c s report

-- ===== src/Policy.antt =====
-- programs/enrg-mvp/src/state/policy.rs and instructions/policy_engine.rs: the set of policies, its
-- three handlers, and the two decisions that the mint asks for.
pub mod Preamble
pub mod Updates
mod Tests
use enrg.Prelude.{
  ℕ, Bool, true, false, not, Option, none, some, ltb, leb, ◌==◌, if◌then◌else◌, map_or, checked_add,
  checked_mul, checked_div, u64_max, Result, ok, err, framework, ErrorCode, require, ok_or, ◌>>=◌,
  ◌>>◌,
}
use enrg.Prelude.Int.{ℤ, pos, leb_ℤ}
use enrg.Constants.{max_clock_skew, default_max_energy_bps, expected_deployer}
use enrg.Solana.{Pubkey, default_key, Runtime}
use enrg.Messages.{OracleReport}
use enrg.Device.{EnergyProducer, can_mint, allows_increment}
use enrg.Validation.{verify_timestamp_with_skew, verify_device_clock}

pub record PolicyRegistry : Type 0 where
  pub authority : Pubkey
  pub mint_enabled : Bool
  pub enforce_oracle_whitelist : Bool
  pub enforce_device_state : Bool
  pub enforce_tier_limits : Bool
  pub enforce_energy_caps : Bool
  pub enforce_supply_cap : Bool
  pub max_energy_bps : ℕ
  pub max_clock_skew_sec : ℤ
  pub version : ℕ
  pub updated_at : ℤ
  pub bump : ℕ

abbrev pub defaults : Pubkey → ℕ → PolicyRegistry
defaults authority bump = record {
  authority = authority;
  mint_enabled = true;
  enforce_oracle_whitelist = true;
  enforce_device_state = true;
  enforce_tier_limits = true;
  enforce_energy_caps = true;
  enforce_supply_cap = true;
  max_energy_bps = default_max_energy_bps;
  max_clock_skew_sec = max_clock_skew;
  version = 1;
  updated_at = pos 0;
  bump = bump;
}

pub record PolicyUpdate : Type 0 where
  pub mint_enabled : Bool
  pub enforce_oracle_whitelist : Bool
  pub enforce_device_state : Bool
  pub enforce_tier_limits : Bool
  pub enforce_energy_caps : Bool
  pub enforce_supply_cap : Bool
  pub max_energy_bps : ℕ
  pub max_clock_skew_sec : ℤ

unfoldable pub initialize_policy_registry :
    Runtime → Option PolicyRegistry → Pubkey → ℕ → Result PolicyRegistry
initialize_policy_registry rt (some _) authority bump = err (framework 0)
initialize_policy_registry rt none authority bump = do
  require (authority == expected_deployer) ErrorCode.unauthorized_deployer
  ok (record (defaults authority bump) { updated_at = rt.now })

unfoldable pub update_policy :
    Runtime → PolicyRegistry → Pubkey → PolicyUpdate → Result PolicyRegistry
update_policy rt registry signer update = do
  require (registry.authority == signer) ErrorCode.not_policy_authority
  require (ltb 0 update.max_energy_bps) ErrorCode.invalid_parameter
  require (leb update.max_energy_bps 1_000_000) ErrorCode.invalid_parameter
  require (leb_ℤ (pos 0) update.max_clock_skew_sec) ErrorCode.invalid_parameter
  require (leb_ℤ update.max_clock_skew_sec (pos 3_600)) ErrorCode.invalid_parameter
  version ← ok_or (checked_add u64_max registry.version 1) ErrorCode.arithmetic_overflow
  ok (record registry {
    mint_enabled = update.mint_enabled;
    enforce_oracle_whitelist = update.enforce_oracle_whitelist;
    enforce_device_state = update.enforce_device_state;
    enforce_tier_limits = update.enforce_tier_limits;
    enforce_energy_caps = update.enforce_energy_caps;
    enforce_supply_cap = update.enforce_supply_cap;
    max_energy_bps = update.max_energy_bps;
    max_clock_skew_sec = update.max_clock_skew_sec;
    version = version;
    updated_at = rt.now;
  })

unfoldable pub set_policy_authority :
    Runtime → PolicyRegistry → Pubkey → Pubkey → Result PolicyRegistry
set_policy_authority rt registry signer new_authority = do
  require (registry.authority == signer) ErrorCode.not_policy_authority
  require (not (new_authority == default_key)) ErrorCode.invalid_parameter
  version ← ok_or (checked_add u64_max registry.version 1) ErrorCode.arithmetic_overflow
  ok (record registry { authority = new_authority; version = version; updated_at = rt.now })

pub record MintPreambleInput : Type 0 where
  pub policy : Option PolicyRegistry
  pub producer : EnergyProducer
  pub report : OracleReport
  pub oracle_trusted : Bool
  pub profile_rated_power : ℕ
  pub now : ℤ

-- A condition that is asked for only while its switch is on.
abbrev pub when_on : Bool → Result (Unit {0}) → Result (Unit {0})
when_on true check = check
when_on false check = ok tt

abbrev pub check_energy : ℕ → ℕ → ℕ → Result (Unit {0})
check_energy rated_power max_bps energy_wh = do
  scaled ← ok_or (checked_mul u64_max rated_power max_bps) ErrorCode.arithmetic_overflow
  max_energy ← ok_or (checked_div scaled 10_000) ErrorCode.arithmetic_overflow
  require (leb energy_wh max_energy) ErrorCode.excessive_energy

unfoldable pub evaluate_preamble : MintPreambleInput → Result (Unit {0})
evaluate_preamble input = do
  let policy = input.policy
  let max_skew = map_or policy max_clock_skew (λ p. p.max_clock_skew_sec)
  let max_bps = map_or policy default_max_energy_bps (λ p. p.max_energy_bps)
  require (map_or policy true (λ p. p.mint_enabled)) ErrorCode.mint_paused
  when_on (map_or policy true (λ p. p.enforce_oracle_whitelist))
      (require input.oracle_trusted ErrorCode.untrusted_oracle)
  when_on (map_or policy true (λ p. p.enforce_device_state))
      (require (can_mint input.producer input.now) ErrorCode.invalid_device_state)
  verify_timestamp_with_skew input.now input.report.verified_at max_skew
  verify_device_clock input.report.device_timestamp input.report.verified_at max_skew
  when_on (map_or policy true (λ p. p.enforce_tier_limits)) (
      require
        (allows_increment input.producer.tier input.producer.month_energy_wh input.report.energy_wh)
        ErrorCode.tier_limit_exceeded)
  when_on (map_or policy true (λ p. p.enforce_energy_caps))
      (check_energy input.profile_rated_power max_bps input.report.energy_wh)

pub record MintRewardInput : Type 0 where
  pub policy : Option PolicyRegistry
  pub reward : ℕ
  pub vault_total_supply : ℕ
  pub vault_max_supply : ℕ

abbrev pub check_supply : ℕ → ℕ → ℕ → Result (Unit {0})
check_supply total_supply reward max_supply = do
  new_supply ← ok_or (checked_add u64_max total_supply reward) ErrorCode.arithmetic_overflow
  require (leb new_supply max_supply) ErrorCode.supply_limit_exceeded

unfoldable pub evaluate_reward : MintRewardInput → Result (Unit {0})
evaluate_reward input = do
  require (ltb 0 input.reward) ErrorCode.zero_amount_mint
  when_on (map_or input.policy true (λ p. p.enforce_supply_cap))
      (check_supply input.vault_total_supply input.reward input.vault_max_supply)

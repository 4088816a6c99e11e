-- ===== src/Mint/Accounts.antt =====
-- The accounts of `mint_energy`, programs/enrg-mvp/src/instructions/mint.rs, and their constraints.
use enrg.Prelude.{ℕ, Bool, ◌||◌, Option, ◌==◌, Result, ErrorCode, require, ◌>>◌}
use enrg.Constants.{instructions_sysvar_id, enrg_profile_program_id}
use enrg.Solana.{Pubkey, TokenAccount}
use enrg.Device.{EnergyProducer}
use enrg.Policy.{PolicyRegistry}
use enrg.Oracle.{OracleRegistry}
use enrg.Quorum.{OracleAttestation, OracleQuorumConfig}
use enrg.Vault.{Vault, TokenMint}
use enrg.Profile.{EnergyProfile}
use enrg.Reputation.{Reputation}
use enrg.Pool.{Pool, PoolContribution}

-- An attestation and the address it was given at.
pub record Attested : Type 0 where
  pub key : Pubkey
  pub account : OracleAttestation

-- The accounts that the handler only reads, and the keys of the others.
pub record MintContext : Type 0 where
  pub producer_key : Pubkey
  pub submitter : Pubkey
  pub producer_owner : Pubkey
  pub token_mint : TokenMint
  pub mint_key : Pubkey
  pub mint_authority : Pubkey
  pub user_token_account : TokenAccount
  pub buyback_account : Pubkey
  pub staking_account : Pubkey
  pub dao_account : Pubkey
  pub emergency_account : Pubkey
  pub instructions : Pubkey
  pub profile_program : Pubkey
  pub oracle_registry : OracleRegistry
  pub policy_registry : Option PolicyRegistry
  pub oracle_quorum_config : OracleQuorumConfig
  pub attestation : Option Attested

-- The accounts that the handler writes.
pub record MintState : Type 0 where
  pub producer : EnergyProducer
  pub vault : Vault
  pub profile : EnergyProfile
  pub reputation : Option Reputation
  pub pool : Option Pool
  pub pool_share : Option PoolContribution

-- The five amounts of a reward.
pub record Split : Type 0 where
  pub user : ℕ
  pub buyback : ℕ
  pub staking : ℕ
  pub dao : ℕ
  pub emergency : ℕ

abbrev pub mint_submitter_authorized : Pubkey → Pubkey → Pubkey → Bool
mint_submitter_authorized producer_authority submitter report_oracle =
    (producer_authority == submitter) || (report_oracle == submitter)

-- The constraints of `MintEnergy`, on the producer as it was stored.
unfoldable pub check_accounts : MintContext → EnergyProducer → Result (Unit {0})
check_accounts c p = do
  require (c.mint_key == c.token_mint.mint) ErrorCode.invalid_parameter
  require (c.user_token_account.owner == p.authority) ErrorCode.unauthorized_token_account_owner
  require (c.buyback_account == c.token_mint.buyback_account) ErrorCode.invalid_parameter
  require (c.staking_account == c.token_mint.staking_account) ErrorCode.invalid_parameter
  require (c.dao_account == c.token_mint.dao_account) ErrorCode.invalid_parameter
  require (c.emergency_account == c.token_mint.emergency_account) ErrorCode.invalid_parameter
  require (c.instructions == instructions_sysvar_id) ErrorCode.invalid_instructions_account
  require (c.profile_program == enrg_profile_program_id) ErrorCode.invalid_parameter
  require (c.producer_owner == p.authority) ErrorCode.not_producer_owner

-- ===== src/Vault.antt =====
-- programs/enrg-mvp/src/state/vault.rs and state/token_mint.rs: the protocol's totals, and the
-- addresses of its token.
use enrg.Prelude.{ℕ}
use enrg.Prelude.Int.{ℤ}
use enrg.Solana.{Pubkey}

pub record Vault : Type 0 where
  pub deployer : Pubkey
  pub authority : Pubkey
  pub protocol_version : ℕ
  pub total_supply : ℕ
  pub max_supply : ℕ
  pub emission_k : ℕ
  pub total_energy_wh : ℕ
  pub total_producers : ℕ
  pub total_proofs : ℕ
  pub network_energy_30d : ℕ
  pub network_energy_updated_at : ℤ

pub record TokenMint : Type 0 where
  pub mint : Pubkey
  pub mint_authority : Pubkey
  pub buyback_account : Pubkey
  pub staking_account : Pubkey
  pub dao_account : Pubkey
  pub emergency_account : Pubkey
  pub founder_account : Pubkey
  pub founder_minted : ℕ
  pub decimals : ℕ

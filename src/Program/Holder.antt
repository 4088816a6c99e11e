-- ===== src/Program/Holder.antt =====
-- The instructions that write the supply leave the deployer and the authority of the vault.
use enrg.Prelude.{ℕ, ◌≡◌}
use enrg.Solana.{Pubkey, Runtime, TokenAccount}
use enrg.Messages.{OracleReport}
use enrg.Vault.{Vault, TokenMint}
use enrg.Treasury.Setup.{AllocateFounder, allocate_founder}
use enrg.Treasury.Funds.{BuybackAndBurn, burn_tokens, buyback_and_burn}
use enrg.Governance.{Proposal, governance_mint}
use enrg.Mint.{
  MintContext, MintState, Split, roll_network, credit_vault, disburse, settle, mint_energy,
}
use enrg.Pool.Distribute.{DistributePool, Distribution, distribute_pool}
use enrg.Program.Runs.{Ends, gives, Ends->>=, Ends-follow}

-- Whose vault it is.
abbrev pub IsHeldBy : Pubkey → Pubkey → Vault → Type 0
IsHeldBy deployer authority v = (v.deployer ≡ deployer) × (v.authority ≡ authority)

pub burn-IsHeldBy :
    (rt : Runtime) (c : BuybackAndBurn) (amount : ℕ)
    → Ends
        (λ (w : Vault). IsHeldBy c.vault.deployer c.vault.authority w)
        (buyback_and_burn rt c amount)
unfolding buyback_and_burn burn_tokens
burn-IsHeldBy rt c amount = search (Ends->>=, gives) depth 14

pub premine-IsHeldBy :
    (rt : Runtime) (c : AllocateFounder)
    → Ends
        (λ (z : Vault × TokenMint). IsHeldBy c.vault.deployer c.vault.authority z.0)
        (allocate_founder rt c)
unfolding allocate_founder
premine-IsHeldBy rt c = search (Ends->>=, gives) depth 14

pub execution-IsHeldBy :
    (rt : Runtime) (p : Proposal) (v : Vault) (mint registered : Pubkey) (d : TokenAccount) (id : ℕ)
    → Ends
        (λ (z : Proposal × Vault).
          IsHeldBy v.deployer v.authority z.1 × (z.1.max_supply ≡ v.max_supply))
        (governance_mint rt p v mint registered d id)
unfolding governance_mint
execution-IsHeldBy rt p v mint registered d id = search (Ends->>=, gives) depth 14

pub distribution-IsHeldBy :
    (rt : Runtime) (c : DistributePool)
    → Ends
        (λ (z : Distribution). IsHeldBy c.vault.deployer c.vault.authority z.vault)
        (distribute_pool rt c)
unfolding distribute_pool
distribution-IsHeldBy rt c = search (Ends->>=, gives) depth 14

roll_network-IsHeldBy :
    (rt : Runtime) (v : Vault) (e : ℕ)
    → Ends (λ (w : Vault). IsHeldBy v.deployer v.authority w) (roll_network rt v e)
unfolding roll_network
roll_network-IsHeldBy rt v e = search (Ends->>=, gives)

credit_vault-IsHeldBy :
    (v : Vault) (supply energy : ℕ) (deployer authority : Pubkey)
    → IsHeldBy deployer authority v
    → Ends (λ (w : Vault). IsHeldBy deployer authority w) (credit_vault v supply energy)
unfolding credit_vault
credit_vault-IsHeldBy v supply energy deployer authority same = search (Ends->>=, gives, same)

disburse-IsHeldBy :
    (rt : Runtime) (c : MintContext) (s : MintState) (r : OracleReport) (reward supply : ℕ)
    (deployer authority : Pubkey)
    → IsHeldBy deployer authority s.vault
    → Ends
        (λ (z : MintState × Split). IsHeldBy deployer authority z.0.vault)
        (disburse rt c s r reward supply)
unfolding disburse
disburse-IsHeldBy rt c s r reward supply deployer authority same =
    let vault = credit_vault-IsHeldBy s.vault supply r.energy_wh deployer authority same in
    search (Ends->>=, Ends-follow _ _ vault, gives) depth 16

pub mint-IsHeldBy :
    (rt : Runtime) (c : MintContext) (s : MintState) (r : OracleReport)
    → Ends
        (λ (z : MintState × Split). IsHeldBy s.vault.deployer s.vault.authority z.0.vault)
        (mint_energy rt c s r)
unfolding mint_energy settle
mint-IsHeldBy rt c s r =
    let rolled = roll_network-IsHeldBy rt s.vault r.energy_wh in
    search (Ends->>=, Ends-follow _ _ rolled, disburse-IsHeldBy) depth 14

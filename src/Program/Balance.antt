-- ===== src/Program/Balance.antt =====
-- What each instruction that writes the vault does to the supply.
use enrg.Prelude.{
  ℕ, ◌+◌, ◌≤◌, ◌≡◌, ◌∙◌, arith, true, Option, none, some, unwrap_or, ok, sum, WhenOn-elim,
}
use enrg.Constants.{max_supply_atomic, expected_deployer, founder_allocation_atomic}
use enrg.Solana.{Pubkey, Runtime, TokenAccount}
use enrg.Vault.{Vault, TokenMint}
use enrg.Treasury.Setup.{
  initialize_vault, set_vault_authority, AllocateFounder, allocate_founder,
  allocate_founder-IsPremine,
}
use enrg.Treasury.Funds.{BuybackAndBurn, buyback_and_burn, buyback_and_burn-values}
use enrg.Governance.{Proposal, governance_mint}
use enrg.Governance.Execution.{governance_mint-IsExecuted}
use enrg.Messages.{OracleReport}
use enrg.Mint.{MintContext, MintState, mint_energy}
use enrg.Mint.Distribution.{amount_of}
use enrg.Mint.Effects.{mint_energy-IsSettled}
use enrg.Policy.Preamble.{in_force}
use enrg.Pool.Distribute.{DistributePool, distribute_pool}
use enrg.Pool.Total.{distribute_pool_total, distribute_pool-capped}
use enrg.Pool.Handlers.{IsPool}
use enrg.Program.Accounts.{load}
use enrg.Program.Bootstrap.{new_vault}
use enrg.Program.Holder.{
  burn-IsHeldBy, premine-IsHeldBy, execution-IsHeldBy, distribution-IsHeldBy, mint-IsHeldBy,
}
use enrg.Program.Runs.{Ends, fails, gives, Ends-from, Ends-ok}

-- The vault was set up by the deployer, and its supply is what was minted and not burned, within
-- the protocol's maximum.
pub record IsBalanced (v : Vault) (minted burned : ℕ) : Type 0 where
  pub deployed : v.deployer ≡ expected_deployer
  pub balance : v.total_supply + burned ≡ minted
  pub same_max : v.max_supply ≡ max_supply_atomic
  pub within : v.total_supply ≤ max_supply_atomic

-- Without a vault nothing is minted or burned.
abbrev pub IsSupplied : Option Vault → ℕ → ℕ → Type 0
IsSupplied none minted burned = (minted ≡ 0) × (burned ≡ 0)
IsSupplied (some v) minted burned = IsBalanced v minted burned

pub initialize_vault-IsBalanced :
    (o : Option Vault) (minted burned : ℕ) (signer mint : Pubkey) (t : TokenMint) (w : Vault)
    → IsSupplied o minted burned
    → initialize_vault (unwrap_or o new_vault) signer mint t ≡ ok w
    → IsBalanced w minted burned
unfolding initialize_vault
initialize_vault-IsBalanced none minted burned signer mint t w s h = ground arith
initialize_vault-IsBalanced (some v) minted burned signer mint t w s h =
    let d = s.deployed in
    let b = s.balance in let m = s.same_max in let n = s.within in ground arith

pub set_vault_authority-IsBalanced :
    (v w : Vault) (minted burned : ℕ) (signer new_authority : Pubkey)
    → IsBalanced v minted burned
    → set_vault_authority v signer new_authority ≡ ok w
    → IsBalanced w minted burned
unfolding set_vault_authority
set_vault_authority-IsBalanced v w minted burned signer new_authority s h = ground arith

-- What `load` finds.
pub load-IsBalanced :
    (o : Option Vault) (minted burned : ℕ)
    → IsSupplied o minted burned
    → Ends (λ v. IsBalanced v minted burned) (load o)
load-IsBalanced none minted burned s = fails _
load-IsBalanced (some v) minted burned s = gives v s

-- One step of the supply of a vault.
moved :
    (v w : Vault) (minted burned more less : ℕ)
    → IsBalanced v minted burned
    → w.deployer ≡ v.deployer
    → w.total_supply + less ≡ v.total_supply + more
    → w.max_supply ≡ v.max_supply
    → w.total_supply ≤ v.max_supply
    → IsBalanced w (minted + more) (burned + less)
moved v w minted burned more less b deployer total max within = record {
  deployed = deployer ∙ b.deployed;
  balance = omega (arith, b.balance);
  same_max = max ∙ b.same_max;
  within = omega (arith, b.same_max);
}

pub buyback_and_burn-IsBalanced :
    (rt : Runtime) (c : BuybackAndBurn) (amount minted burned : ℕ)
    → IsBalanced c.vault minted burned
    → Ends (λ w. IsBalanced w (minted + 0) (burned + amount)) (buyback_and_burn rt c amount)
buyback_and_burn-IsBalanced rt c amount minted burned b =
    Ends-from (buyback_and_burn rt c amount) (λ w e.
      let (_, _, _, _, burnt, kept) = buyback_and_burn-values rt c amount w e in
      let low = b.within in
      let max = b.same_max in
      moved c.vault w minted burned 0 amount b (Ends-ok _ w (burn-IsHeldBy rt c amount) e).0
        (omega arith) kept (omega arith))

pub allocate_founder-IsBalanced :
    (rt : Runtime) (c : AllocateFounder) (minted burned : ℕ)
    → IsBalanced c.vault minted burned
    → Ends
        (λ z. IsBalanced z.0 (minted + founder_allocation_atomic) (burned + 0))
        (allocate_founder rt c)
allocate_founder-IsBalanced rt c minted burned b = Ends-from (allocate_founder rt c) (λ (w, t) e.
    let p = allocate_founder-IsPremine rt c w t e in
    moved c.vault w minted burned founder_allocation_atomic 0 b
      (Ends-ok _ (w, t) (premine-IsHeldBy rt c) e).0 (omega (arith, p.supply)) p.kept p.capped)

pub governance_mint-IsBalanced :
    (rt : Runtime) (p : Proposal) (v : Vault) (mint registered : Pubkey) (d : TokenAccount)
    (id minted burned : ℕ)
    → IsBalanced v minted burned
    → Ends
        (λ z. IsBalanced z.1 (minted + p.amount_atomic) (burned + 0))
        (governance_mint rt p v mint registered d id)
governance_mint-IsBalanced rt p v mint registered d id minted burned b =
    Ends-from (governance_mint rt p v mint registered d id) (λ (q, w) e.
      let now = governance_mint-IsExecuted rt p q v w mint registered d id e in
      let ((deployer, _), max) =
        Ends-ok _ (q, w) (execution-IsHeldBy rt p v mint registered d id) e in
      moved v w minted burned p.amount_atomic 0 b deployer (omega (arith, now.is_supply)) max
        now.is_capped)

pub distribute_pool-IsBalanced :
    (rt : Runtime) (c : DistributePool) (minted burned : ℕ)
    → IsPool c.pool
    → IsBalanced c.vault minted burned
    → Ends
        (λ out. IsBalanced out.vault (minted + sum out.rewards) (burned + 0))
        (distribute_pool rt c)
distribute_pool-IsBalanced rt c minted burned sound b = Ends-from (distribute_pool rt c) (λ out e.
    let (total, within, _, _, _, _, _, _, _) = distribute_pool_total rt c out sound e in
    moved c.vault out.vault minted burned (sum out.rewards) 0 b
      (Ends-ok _ out (distribution-IsHeldBy rt c) e).0 (omega (arith, total))
      (distribute_pool-capped rt c out e) within)

pub mint_energy-IsBalanced :
    (rt : Runtime) (c : MintContext) (s : MintState) (r : OracleReport) (minted burned : ℕ)
    → (in_force c.policy_registry).enforce_supply_cap ≡ true
    → IsBalanced s.vault minted burned
    → Ends (λ z. IsBalanced z.0.vault (minted + amount_of z.1) (burned + 0)) (mint_energy rt c s r)
mint_energy-IsBalanced rt c s r minted burned capped b =
    Ends-from (mint_energy rt c s r) (λ (out, split) e.
      let now = mint_energy-IsSettled rt c s r out split e in
      let low = WhenOn-elim now.is_covered.1 capped in
      moved s.vault out.vault minted burned (amount_of split) 0 b
        (Ends-ok _ (out, split) (mint-IsHeldBy rt c s r) e).0 (omega (arith, now.is_supplied))
        now.is_capped (omega (arith, now.is_supplied)))

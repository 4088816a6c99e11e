-- ===== src/Treasury/Supply.antt =====
-- The supply over all the operations that change it: the mint of a proof, the execution of a
-- proposal, the distribution of a pool, the founder's premine and the burn, in any order.
use enrg.Prelude.{WhenOn-elim, ℕ, ◌+◌, ◌≤◌, ◌≡◌, refl, ap, ◌∙◌, true, sum, ok, arith}
use enrg.Constants.{founder_allocation_atomic}
use enrg.Solana.{Pubkey, Runtime, TokenAccount}
use enrg.Messages.{OracleReport}
use enrg.Vault.{Vault, TokenMint}
use enrg.Policy.Preamble.{in_force}
use enrg.Mint.{MintContext, MintState, Split, mint_energy}
use enrg.Mint.Distribution.{amount_of}
use enrg.Mint.Effects.{mint_energy-IsSettled}
use enrg.Governance.{Proposal, governance_mint}
use enrg.Governance.Execution.{governance_mint-IsExecuted}
use enrg.Pool.Handlers.{IsPool}
use enrg.Pool.Distribute.{DistributePool, Distribution, distribute_pool}
use enrg.Pool.Total.{distribute_pool_total, distribute_pool-capped}
use enrg.Treasury.Funds.{BuybackAndBurn, buyback_and_burn, buyback_and_burn-values}
use enrg.Treasury.Setup.{
  AllocateFounder, allocate_founder, allocate_founder-IsPremine, set_vault_authority,
}

-- From one vault to another, with what was minted and what was burned on the way. A mint of a
-- proof counts under policies that enforce the supply cap.
pub data Operations (v : Vault) : ℕ → ℕ → Vault → Type 0 where
  none_yet : Operations v 0 0 v
  then_mint :
      (rt : Runtime) (c : MintContext) (s out : MintState) (r : OracleReport) (split : Split)
      {minted burned : ℕ} {w : Vault}
      → Operations v minted burned w
      → s.vault ≡ w
      → (in_force c.policy_registry).enforce_supply_cap ≡ true
      → mint_energy rt c s r ≡ ok (out, split)
      → Operations v (minted + amount_of split) burned out.vault
  then_execute :
      (rt : Runtime) (p q : Proposal) (mint_key registered : Pubkey) (destination : TokenAccount)
      (id : ℕ) {minted burned : ℕ} {w x : Vault}
      → Operations v minted burned w
      → governance_mint rt p w mint_key registered destination id ≡ ok (q, x)
      → Operations v (minted + p.amount_atomic) burned x
  then_distribute :
      (rt : Runtime) (c : DistributePool) (out : Distribution) {minted burned : ℕ} {w : Vault}
      → Operations v minted burned w
      → c.vault ≡ w
      → IsPool c.pool
      → distribute_pool rt c ≡ ok out
      → Operations v (minted + sum out.rewards) burned out.vault
  then_premine :
      (rt : Runtime) (c : AllocateFounder) (t : TokenMint) {minted burned : ℕ} {w x : Vault}
      → Operations v minted burned w
      → c.vault ≡ w
      → allocate_founder rt c ≡ ok (x, t)
      → Operations v (minted + founder_allocation_atomic) burned x
  then_burn :
      (rt : Runtime) (c : BuybackAndBurn) (amount : ℕ) {minted burned : ℕ} {w x : Vault}
      → Operations v minted burned w
      → c.vault ≡ w
      → buyback_and_burn rt c amount ≡ ok x
      → Operations v minted (burned + amount) x
  then_authorize :
      (signer new_authority : Pubkey) {minted burned : ℕ} {w x : Vault}
      → Operations v minted burned w
      → set_vault_authority w signer new_authority ≡ ok x
      → Operations v minted burned x

pub record IsLedger (v : Vault) (minted burned : ℕ) (out : Vault) : Type 0 where
  balance : out.total_supply + burned ≡ v.total_supply + minted
  same_max : out.max_supply ≡ v.max_supply
  within : out.total_supply ≤ out.max_supply

governance_mint-max :
    (rt : Runtime) (p out : Proposal) (v w : Vault) (mint_key registered : Pubkey)
    (destination : TokenAccount) (id : ℕ)
    → governance_mint rt p v mint_key registered destination id ≡ ok (out, w)
    → w.max_supply ≡ v.max_supply
unfolding governance_mint
governance_mint-max rt p out v w mint_key registered destination id h = ground arith

set_vault_authority-supply :
    (v w : Vault) (signer new_authority : Pubkey)
    → set_vault_authority v signer new_authority ≡ ok w
    → (w.total_supply ≡ v.total_supply) × (w.max_supply ≡ v.max_supply)
unfolding set_vault_authority
set_vault_authority-supply v w signer new_authority h = ground arith

supply_of :
    {v w : Vault} → v ≡ w → (v.total_supply ≡ w.total_supply) × (v.max_supply ≡ w.max_supply)
supply_of e = (ap (λ (u : Vault). u.total_supply) e, ap (λ (u : Vault). u.max_supply) e)

-- From a supply within its maximum, after any sequence of successful mints of proofs (each under
-- policies that enforce the supply cap), executions of proposals, distributions of pools with
-- different members, at most a hundred, premines, burns and changes of the authority, the supply
-- and what was burned add up to the supply at the start and what was minted, the maximum is
-- unchanged, and the supply is within it.
pub Operations-IsLedger :
    (v out : Vault) (minted burned : ℕ)
    → v.total_supply ≤ v.max_supply
    → Operations v minted burned out
    → IsLedger v minted burned out
Operations-IsLedger v out minted burned fits none_yet = record {
  balance = omega arith;
  same_max = refl;
  within = fits;
}
Operations-IsLedger v out minted burned fits
      (then_mint rt c s _ r split {w = w} before at enforced h) =
    let past = Operations-IsLedger v w _ _ fits before in
    let now = mint_energy-IsSettled rt c s r _ split h in
    let (total, max) = supply_of at in
    record {
      balance = omega (arith, past.balance, now.is_supplied, total);
      same_max = now.is_capped ∙ max ∙ past.same_max;
      within = omega (arith, WhenOn-elim now.is_covered.1 enforced, now.is_supplied, now.is_capped);
    }
Operations-IsLedger v out minted burned fits
      (then_execute rt p q mint_key registered destination id {w = w} {x = x} before h) =
    let past = Operations-IsLedger v w _ _ fits before in
    let now = governance_mint-IsExecuted rt p q w x mint_key registered destination id h in
    let max = governance_mint-max rt p q w x mint_key registered destination id h in
    record {
      balance = omega (arith, past.balance, now.is_supply);
      same_max = max ∙ past.same_max;
      within = omega (arith, now.is_capped, max);
    }
Operations-IsLedger v out minted burned fits (then_distribute rt c _ {w = w} before at sound h) =
    let past = Operations-IsLedger v w _ _ fits before in
    let now = distribute_pool_total rt c _ sound h in
    let same = distribute_pool-capped rt c _ h in
    let (total, max) = supply_of at in
    record {
      balance = omega (arith, past.balance, now.0, total);
      same_max = same ∙ max ∙ past.same_max;
      within = omega (arith, now.1, same);
    }
Operations-IsLedger v out minted burned fits (then_premine rt c t {w = w} {x = x} before at h) =
    let past = Operations-IsLedger v w _ _ fits before in
    let now = allocate_founder-IsPremine rt c x t h in
    let (total, max) = supply_of at in
    record {
      balance = omega (arith, past.balance, now.supply, total);
      same_max = now.kept ∙ max ∙ past.same_max;
      within = omega (arith, now.capped, now.kept);
    }
Operations-IsLedger v out minted burned fits (then_burn rt c amount {w = w} {x = x} before at h) =
    let past = Operations-IsLedger v w _ _ fits before in
    let (_, _, _, _, burnt, kept) = buyback_and_burn-values rt c amount x h in
    let (total, max) = supply_of at in
    record {
      balance = omega (arith, past.balance, burnt, total);
      same_max = kept ∙ max ∙ past.same_max;
      within = omega (arith, past.within, burnt, kept, total, max);
    }
Operations-IsLedger v out minted burned fits
      (then_authorize signer new_authority {w = w} {x = x} before h) =
    let past = Operations-IsLedger v w _ _ fits before in
    let (total, max) = set_vault_authority-supply w x signer new_authority h in
    record {
      balance = omega (arith, past.balance, total);
      same_max = max ∙ past.same_max;
      within = omega (arith, past.within, total, max);
    }

-- ===== src/Program/Leaves.antt =====
-- Which instructions leave the vault with its holders.
use enrg.Prelude.{ℕ, ◌≡◌, refl, Option, some, List}
use enrg.Solana.{Pubkey, Bytes, Runtime, TokenAccount, derived}
use enrg.Messages.{OracleReport}
use enrg.Vault.{Vault}
use enrg.Treasury.Setup.{allocate_founder}
use enrg.Treasury.Funds.{buyback_and_burn}
use enrg.Governance.{proposal_address, governance_mint}
use enrg.Mint.{mint_energy, MintState}
use enrg.Pool.Distribute.{distribute_pool}
use enrg.Program.Accounts.{Ledger, Flow, no_flow, load}
use enrg.Program.Bootstrap.{src_mint}
use enrg.Program.Minting.{MintAccounts, load_context, load_state, store_state, run_mint}
use enrg.Program.Payouts.{PoolCall, EconomyCall, pool_key, run_distribution, run_pools, run_economy}
use enrg.Program.Votes.{run_execution}
use enrg.Program.Runs.{Ends, gives, Ends->>=, Ends-follow}
use enrg.Program.Holder.{
  IsHeldBy, burn-IsHeldBy, premine-IsHeldBy, execution-IsHeldBy, distribution-IsHeldBy,
  mint-IsHeldBy,
}
use enrg.Program.Records.{load-some}

-- The vault is as it was, or was written with the same holders.
pub data KeepsHolders (o o' : Option Vault) : Type 0 where
  untouched : o' ≡ o → KeepsHolders o o'
  written :
      (v w : Vault)
      → o ≡ some v
      → o' ≡ some w
      → IsHeldBy v.deployer v.authority w
      → KeepsHolders o o'

-- The accounts of the other roles are as they were.
abbrev pub SameRest : Ledger → Ledger → Type 0
SameRest l out =
    (out.policy_registry ≡ l.policy_registry)
    × (out.oracle_registry ≡ l.oracle_registry)
    × (out.council.governance ≡ l.council.governance)
    × (out.quorum.config ≡ l.quorum.config)

same_rest : (l : Ledger) → SameRest l l
same_rest l = (refl, refl, refl, refl)

abbrev pub Leaves : Ledger → Ledger × Flow → Type 0
Leaves l z = KeepsHolders l.vault z.0.vault × SameRest l z.0

load_state-vault :
    (rt : Runtime) (derive : List Bytes → Pubkey) (l : Ledger) (a : MintAccounts)
    → Ends (λ (s : MintState). l.vault ≡ some s.vault) (load_state rt derive l a)
unfolding load_state
load_state-vault rt derive l a =
    let found = load-some l.vault in search (Ends-follow _ _ found, Ends->>=, gives) depth 16

pub run_mint-Leaves :
    (rt : Runtime) (derive : List Bytes → Pubkey) (l : Ledger) (signer : Pubkey) (a : MintAccounts)
    (r : OracleReport)
    → Ends (Leaves l) (run_mint rt derive l signer a r)
unfolding run_mint store_state
run_mint-Leaves rt derive l signer a r = Ends->>= (load_context rt l signer a) _ (λ c _.
    Ends-follow (load_state rt derive l a) _ (load_state-vault rt derive l a) (λ s found.
      Ends-follow (mint_energy rt c s r) _ (mint-IsHeldBy rt c s r)
        (λ z same. gives _ (written s.vault z.0.vault found refl same, same_rest l))))

pub run_economy-Leaves :
    (rt : Runtime) (l : Ledger) (signer : Pubkey) (c : EconomyCall)
    → Ends (Leaves l) (run_economy rt l signer c)
unfolding run_economy
run_economy-Leaves rt l signer (EconomyCall.buyback_and_burn account owner amount) =
    Ends-follow (load l.vault) _ (load-some l.vault) (λ v found.
      Ends->>= (load l.token_mint) _ (λ t _.
        Ends-follow (buyback_and_burn rt _ amount) _ (burn-IsHeldBy rt _ amount)
          (λ w same. gives _ (written v w found refl same, same_rest l))))
run_economy-Leaves rt l signer (EconomyCall.allocate_founder account) =
    Ends-follow (load l.vault) _ (load-some l.vault) (λ v found.
      Ends->>= (load l.token_mint) _ (λ t _.
        Ends-follow (allocate_founder rt _) _ (premine-IsHeldBy rt _)
          (λ z same. gives _ (written v z.0 found refl same, same_rest l))))
run_economy-Leaves rt l signer (EconomyCall.withdraw_fund _ _ _ _ _) =
    let still : Leaves l (l, no_flow) = (untouched refl, same_rest l) in
    search (Ends->>=, gives, still)

pub run_execution-Leaves :
    (rt : Runtime) (l : Ledger) (signer : Pubkey) (id : ℕ) (d : TokenAccount)
    → Ends (Leaves l) (run_execution rt l signer id d)
unfolding run_execution
run_execution-Leaves rt l signer id d = Ends->>= (load l.council.governance) _ (λ g _.
    Ends->>= (load (l.council.proposals (proposal_address rt id))) _ (λ p _.
      Ends-follow (load l.vault) _ (load-some l.vault) (λ v found.
        Ends->>= (load l.token_mint) _ (λ t _.
          Ends-follow (governance_mint rt p v (src_mint rt) t.mint d id) _
            (execution-IsHeldBy rt p v (src_mint rt) t.mint d id)
            (λ z same. gives _ (written v z.1 found refl same.0, same_rest l))))))

pub run_pools-Leaves :
    (rt : Runtime) (l : Ledger) (signer : Pubkey) (c : PoolCall)
    → Ends (Leaves l) (run_pools rt l signer c)
unfolding run_pools run_distribution
run_pools-Leaves rt l signer (PoolCall.distribute_pool at remaining) =
    Ends->>= (load (l.pools.pools at)) _ (λ pool _.
      Ends->>= (derived at (pool_key rt pool.authority)) _ (λ _ _.
        Ends-follow (load l.vault) _ (load-some l.vault) (λ v found.
          Ends->>= (load l.token_mint) _ (λ t _.
            Ends-follow (distribute_pool rt _) _ (distribution-IsHeldBy rt _)
              (λ out same. gives _ (written v out.vault found refl same, same_rest l))))))
run_pools-Leaves rt l signer (PoolCall.create_pool threshold) =
    let still : Leaves l (l, no_flow) = (untouched refl, same_rest l) in
    search (Ends->>=, gives, still) depth 14
run_pools-Leaves rt l signer (PoolCall.join_pool _ _) =
    let still : Leaves l (l, no_flow) = (untouched refl, same_rest l) in
    search (Ends->>=, gives, still)

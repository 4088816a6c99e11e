-- ===== src/Program/Supply.antt =====
-- The supply of the token over every run of the program.
use enrg.Prelude.{ℕ, ◌+◌, ◌≡◌, refl, arith, true, Option, none, some, List, Bool, false}
use enrg.Solana.{Pubkey, Bytes, Runtime, TokenAccount, derived}
use enrg.Vault.{Vault}
use enrg.Treasury.Setup.{set_vault_authority, allocate_founder}
use enrg.Treasury.Funds.{buyback_and_burn}
use enrg.Governance.{proposal_address, governance_mint}
use enrg.Messages.{OracleReport}
use enrg.Mint.{MintContext, MintState, mint_energy}
use enrg.Policy.{PolicyRegistry}
use enrg.Policy.Preamble.{in_force}
use enrg.Pool.Distribute.{RemainingAccount, distribute_pool}
use enrg.Program.Accounts.{Ledger, Flow, load, genesis}
use enrg.Program.Bootstrap.{src_mint, SetupCall, run_setup}
use enrg.Program.Minting.{MintAccounts, if_passed, load_context, load_state, store_state, run_mint}
use enrg.Program.Payouts.{PoolCall, EconomyCall, pool_key, run_distribution, run_pools, run_economy}
use enrg.Program.Votes.{run_execution}
use enrg.Program.{Call, run}
use enrg.Program.Balance.{
  IsBalanced, IsSupplied, initialize_vault-IsBalanced, set_vault_authority-IsBalanced,
  load-IsBalanced, buyback_and_burn-IsBalanced, allocate_founder-IsBalanced,
  governance_mint-IsBalanced, distribute_pool-IsBalanced, mint_energy-IsBalanced,
}
use enrg.Program.Members.{ArePools, run-ArePools}
use enrg.Program.Runs.{
  Run, stays, steps, Ends, fails, gives, Ends->>=, Ends-follow, Ends-ok, load-Holds,
}

ruleset follows = (Ends->>=, gives)

after_nothing :
    (o : Option Vault) (minted burned : ℕ)
    → IsSupplied o minted burned
    → IsSupplied o (minted + 0) (burned + 0)
after_nothing none minted burned s = omega arith
after_nothing (some v) minted burned s = record {
  deployed = s.deployed;
  balance = omega (arith, s.balance);
  same_max = s.same_max;
  within = s.within;
}

-- The ledger and the flow of an instruction after `minted` and `burned`.
abbrev Follows : ℕ → ℕ → Ledger × Flow → Type 0
Follows minted burned z = IsSupplied z.0.vault (minted + z.1.minted) (burned + z.1.burned)

run_setup-IsSupplied :
    (rt : Runtime) (l : Ledger) (signer : Pubkey) (c : SetupCall) (minted burned : ℕ)
    → IsSupplied l.vault minted burned
    → Ends (λ (out : Ledger). IsSupplied out.vault minted burned) (run_setup rt l signer c)
unfolding run_setup
run_setup-IsSupplied rt l signer SetupCall.initialize_token minted burned s = search (follows, s)
run_setup-IsSupplied rt l signer (SetupCall.initialize_vault mint) minted burned s =
    search (follows, initialize_vault-IsBalanced l.vault minted burned signer mint, s)
run_setup-IsSupplied rt l signer (SetupCall.set_vault_authority new_authority) minted burned s =
    Ends-follow (load l.vault) _ (load-IsBalanced l.vault minted burned s) (λ v b.
      Ends->>= (set_vault_authority v signer new_authority) _ (λ w e.
        gives _ (set_vault_authority-IsBalanced v w minted burned signer new_authority b e)))
run_setup-IsSupplied rt l signer _ minted burned s = search (follows, s)

-- A minting instruction finds the cap enforced: the policies of the ledger do, if there are any.
abbrev pub IsCapEnforced : Ledger → Type 0
IsCapEnforced l = (in_force l.policy_registry).enforce_supply_cap ≡ true

if_passed-enforced :
    (with : Bool) (o : Option PolicyRegistry)
    → (in_force o).enforce_supply_cap ≡ true
    → Ends (λ p. (in_force p).enforce_supply_cap ≡ true) (if_passed with o)
if_passed-enforced false o h = gives none refl
if_passed-enforced true none h = fails _
if_passed-enforced true (some p) h = gives (some p) h

load_context-enforced :
    (rt : Runtime) (l : Ledger) (signer : Pubkey) (a : MintAccounts)
    → IsCapEnforced l
    → Ends
        (λ (c : MintContext). (in_force c.policy_registry).enforce_supply_cap ≡ true)
        (load_context rt l signer a)
unfolding load_context
load_context-enforced rt l signer a h =
    let policies = if_passed-enforced a.policies l.policy_registry h in
    search (Ends->>=, Ends-follow _ _ policies, gives) depth 14

load_state-IsBalanced :
    (rt : Runtime) (derive : List Bytes → Pubkey) (l : Ledger) (a : MintAccounts)
    (minted burned : ℕ)
    → IsSupplied l.vault minted burned
    → Ends (λ (s : MintState). IsBalanced s.vault minted burned) (load_state rt derive l a)
unfolding load_state
load_state-IsBalanced rt derive l a minted burned b =
    let vault = load-IsBalanced l.vault minted burned b in
    search (Ends->>=, Ends-follow _ _ vault, gives) depth 20

run_mint-IsSupplied :
    (rt : Runtime) (derive : List Bytes → Pubkey) (l : Ledger) (signer : Pubkey) (a : MintAccounts)
    (r : OracleReport) (minted burned : ℕ)
    → IsCapEnforced l
    → IsSupplied l.vault minted burned
    → Ends (Follows minted burned) (run_mint rt derive l signer a r)
unfolding run_mint store_state
run_mint-IsSupplied rt derive l signer a r minted burned capped b =
    Ends-follow (load_context rt l signer a) _ (load_context-enforced rt l signer a capped) (λ c on.
      Ends-follow (load_state rt derive l a) _ (load_state-IsBalanced rt derive l a minted burned b)
        (λ s sound.
          Ends-follow (mint_energy rt c s r) _
            (mint_energy-IsBalanced rt c s r minted burned on sound) (λ z after. gives _ after)))

run_economy-IsSupplied :
    (rt : Runtime) (l : Ledger) (signer : Pubkey) (c : EconomyCall) (minted burned : ℕ)
    → IsSupplied l.vault minted burned
    → Ends (Follows minted burned) (run_economy rt l signer c)
unfolding run_economy
run_economy-IsSupplied rt l signer (EconomyCall.buyback_and_burn account owner amount) minted burned
      s =
    Ends-follow (load l.vault) _ (load-IsBalanced l.vault minted burned s) (λ v b.
      Ends->>= (load l.token_mint) _ (λ t _.
        Ends-follow (buyback_and_burn rt _ amount) _
          (buyback_and_burn-IsBalanced rt _ amount minted burned b) (λ w after. gives _ after)))
run_economy-IsSupplied rt l signer (EconomyCall.allocate_founder account) minted burned s =
    Ends-follow (load l.vault) _ (load-IsBalanced l.vault minted burned s) (λ v b.
      Ends->>= (load l.token_mint) _ (λ t _.
        Ends-follow (allocate_founder rt _) _ (allocate_founder-IsBalanced rt _ minted burned b)
          (λ w after. gives _ after)))
run_economy-IsSupplied rt l signer (EconomyCall.withdraw_fund _ _ _ _ _) minted burned s =
    let same = after_nothing l.vault minted burned s in search (Ends->>=, gives, same)

run_execution-IsSupplied :
    (rt : Runtime) (l : Ledger) (signer : Pubkey) (id : ℕ) (d : TokenAccount) (minted burned : ℕ)
    → IsSupplied l.vault minted burned
    → Ends (Follows minted burned) (run_execution rt l signer id d)
unfolding run_execution
run_execution-IsSupplied rt l signer id d minted burned s =
    Ends->>= (load l.council.governance) _ (λ g _.
      Ends->>= (load (l.council.proposals (proposal_address rt id))) _ (λ p _.
        Ends-follow (load l.vault) _ (load-IsBalanced l.vault minted burned s) (λ v b.
          Ends->>= (load l.token_mint) _ (λ t _.
            Ends-follow (governance_mint rt p v (src_mint rt) t.mint d id) _
              (governance_mint-IsBalanced rt p v (src_mint rt) t.mint d id minted burned b)
              (λ z after. gives _ after)))))

run_distribution-IsSupplied :
    (rt : Runtime) (l : Ledger) (signer at : Pubkey) (remaining : List RemainingAccount)
    (minted burned : ℕ)
    → ArePools l
    → IsSupplied l.vault minted burned
    → Ends (Follows minted burned) (run_distribution rt l signer at remaining)
unfolding run_distribution
run_distribution-IsSupplied rt l signer at remaining minted burned h s =
    Ends-follow (load (l.pools.pools at)) _ (load-Holds _ (h.holds at)) (λ pool sound.
      Ends->>= (derived at (pool_key rt pool.authority)) _ (λ _ _.
        Ends-follow (load l.vault) _ (load-IsBalanced l.vault minted burned s) (λ v b.
          Ends->>= (load l.token_mint) _ (λ t _.
            Ends-follow (distribute_pool rt _) _
              (distribute_pool-IsBalanced rt _ minted burned sound b)
              (λ out after. gives _ after)))))

run_pools-IsSupplied :
    (rt : Runtime) (l : Ledger) (signer : Pubkey) (c : PoolCall) (minted burned : ℕ)
    → ArePools l
    → IsSupplied l.vault minted burned
    → Ends (Follows minted burned) (run_pools rt l signer c)
unfolding run_pools
run_pools-IsSupplied rt l signer (PoolCall.distribute_pool at remaining) minted burned h s =
    run_distribution-IsSupplied rt l signer at remaining minted burned h s
run_pools-IsSupplied rt l signer (PoolCall.create_pool threshold) minted burned h s =
    let same = after_nothing l.vault minted burned s in search (Ends->>=, gives, same)
run_pools-IsSupplied rt l signer (PoolCall.join_pool _ _) minted burned h s =
    let same = after_nothing l.vault minted burned s in search (Ends->>=, gives, same)

run-IsSupplied :
    (rt : Runtime) (derive : List Bytes → Pubkey) (l : Ledger) (signer : Pubkey) (c : Call)
    (minted burned : ℕ)
    → ArePools l
    → IsCapEnforced l
    → IsSupplied l.vault minted burned
    → Ends (Follows minted burned) (run rt derive l signer c)
unfolding run
run-IsSupplied rt derive l signer (Call.setup call) minted burned h capped s =
    Ends-follow (run_setup rt l signer call) _
      (run_setup-IsSupplied rt l signer call minted burned s)
      (λ out after. gives _ (after_nothing out.vault minted burned after))
run-IsSupplied rt derive l signer (Call.mint_energy a r) minted burned h capped s =
    run_mint-IsSupplied rt derive l signer a r minted burned capped s
run-IsSupplied rt derive l signer (Call.pools call) minted burned h capped s =
    run_pools-IsSupplied rt l signer call minted burned h s
run-IsSupplied rt derive l signer (Call.economy call) minted burned h capped s =
    run_economy-IsSupplied rt l signer call minted burned s
run-IsSupplied rt derive l signer (Call.governance_mint id d) minted burned h capped s =
    run_execution-IsSupplied rt l signer id d minted burned s
run-IsSupplied rt derive l signer _ minted burned h capped s =
    let same = after_nothing l.vault minted burned s in search (Ends->>=, gives, same)

supplied :
    (derive : List Bytes → Pubkey) (minted burned : ℕ) (l : Ledger)
    → Run IsCapEnforced derive genesis minted burned l
    → ArePools l × IsSupplied l.vault minted burned
supplied derive minted burned l stays = (record { holds = λ k. tt }, (refl, refl))
supplied derive minted burned l (steps rt signer c {m = m} before capped h) =
    let (pools, past) = supplied derive _ _ m before in
    (
      Ends-ok _ _ (run-ArePools rt derive m signer c pools) h,
      Ends-ok _ _ (run-IsSupplied rt derive m signer c _ _ pools capped past) h,
    )

-- After any successful instructions from the empty ledger, by whatever signers, each on a ledger
-- whose policies, or the defaults where there are none, enforce the supply cap: if there is a
-- vault, its supply and what was burned add up to what was minted, its maximum is the program's,
-- and its supply is within it, and its deployer is the expected one; without a vault nothing was
-- minted or burned.
pub Run-IsSupplied :
    (derive : List Bytes → Pubkey) (minted burned : ℕ) (l : Ledger)
    → Run IsCapEnforced derive genesis minted burned l
    → IsSupplied l.vault minted burned
Run-IsSupplied derive minted burned l run = (supplied derive minted burned l run).1

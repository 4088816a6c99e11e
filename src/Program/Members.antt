-- ===== src/Program/Members.antt =====
-- The pools over every run of the program.
use enrg.Prelude.{ℕ, Option, none, some, List, refl, arith, distinct, unwrap_or}
use enrg.Solana.{Pubkey, Bytes, Runtime, TokenAccount, vacant, derived}
use enrg.Messages.{OracleReport}
use enrg.Mint.{MintContext, MintState, credit_pool, disburse, settle, mint_energy}
use enrg.Pool.{Pool, PoolContribution}
use enrg.Pool.Handlers.{IsPool, create_pool, join_pool, join_pool-IsPool}
use enrg.Pool.Distribute.{RemainingAccount, DistributePool, Distribution, distribute_pool}
use enrg.Device.{EnergyProducer}
use enrg.Program.Accounts.{Accounts, Pools, Ledger, load}
use enrg.Program.Bootstrap.{SetupCall, run_setup}
use enrg.Program.Minting.{MintAccounts, load_context, load_state, store_state, run_mint}
use enrg.Program.Payouts.{
  PoolCall, EconomyCall, pool_key, share_key, producer_key, new_share, run_join, run_distribution,
  run_pools, run_economy,
}
use enrg.Program.Votes.{run_execution}
use enrg.Program.{Call, run}
use enrg.Program.Runs.{
  Ends, fails, gives, Ends->>=, Ends-follow, Holds, AllOf, AllOf-store, AllOf-store_passed,
  load-Holds, passed-Holds,
}

IsPool-energy :
    (pool : Pool) (energy : ℕ) → IsPool pool → IsPool (record pool { total_energy = energy })
IsPool-energy pool energy h = record { different = h.different; bounded = h.bounded }

credit_pool-IsPool :
    (rt : Runtime) (c : MintContext) (pool : Option Pool) (share : Option PoolContribution) (e : ℕ)
    → Holds IsPool pool
    → Ends (λ r. Holds IsPool r.0) (credit_pool rt c pool share e)
unfolding credit_pool
credit_pool-IsPool rt c none none e h = gives _ tt
credit_pool-IsPool rt c none (some share) e h = fails _
credit_pool-IsPool rt c (some pool) none e h = fails _
credit_pool-IsPool rt c (some pool) (some share) e h =
    search (Ends->>=, gives, IsPool-energy pool, h) depth 14

disburse-IsPool :
    (rt : Runtime) (c : MintContext) (s : MintState) (r : OracleReport) (reward supply : ℕ)
    → Holds IsPool s.pool
    → Ends (λ z. Holds IsPool z.0.pool) (disburse rt c s r reward supply)
unfolding disburse
disburse-IsPool rt c s r reward supply h =
    let pools = credit_pool-IsPool rt c s.pool s.pool_share r.energy_wh h in
    search (Ends->>=, Ends-follow _ _ pools, gives) depth 14

mint_energy-IsPool :
    (rt : Runtime) (c : MintContext) (s : MintState) (r : OracleReport)
    → Holds IsPool s.pool
    → Ends (λ z. Holds IsPool z.0.pool) (mint_energy rt c s r)
unfolding mint_energy settle
mint_energy-IsPool rt c s r h = search (Ends->>=, disburse-IsPool, h) depth 14

-- Every pool of a ledger has different members, at most a hundred.
abbrev pub ArePools : Ledger → Type 0
ArePools l = AllOf IsPool l.pools.pools

load_state-IsPool :
    (rt : Runtime) (derive : List Bytes → Pubkey) (l : Ledger) (a : MintAccounts)
    → ArePools l
    → Ends (λ s. Holds IsPool s.pool) (load_state rt derive l a)
unfolding load_state
load_state-IsPool rt derive l a h =
    let pool = passed-Holds l.pools.pools a.pool h in
    search (Ends->>=, Ends-follow _ _ pool, gives) depth 20

run_mint-ArePools :
    (rt : Runtime) (derive : List Bytes → Pubkey) (l : Ledger) (signer : Pubkey) (a : MintAccounts)
    (r : OracleReport)
    → ArePools l
    → Ends (λ z. ArePools z.0) (run_mint rt derive l signer a r)
unfolding run_mint store_state
run_mint-ArePools rt derive l signer a r h = Ends->>= (load_context rt l signer a) _ (λ c _.
    Ends-follow (load_state rt derive l a) _ (load_state-IsPool rt derive l a h) (λ s sound.
      Ends-follow (mint_energy rt c s r) _ (mint_energy-IsPool rt c s r sound)
        (λ z kept. gives _ (AllOf-store_passed l.pools.pools a.pool z.0.pool h kept))))

create_pool-IsPool :
    (rt : Runtime) (existing : Option Pool) (key authority : Pubkey) (threshold : ℕ)
    → Ends IsPool (create_pool rt existing key authority threshold)
unfolding create_pool distinct
create_pool-IsPool rt existing key authority threshold =
    Ends->>= (vacant existing) _
      (λ _ _. gives _ (record { different = refl; bounded = omega arith }))

distribute_pool-IsPool :
    (rt : Runtime) (c : DistributePool)
    → IsPool c.pool
    → Ends (λ (z : Distribution). IsPool z.pool) (distribute_pool rt c)
unfolding distribute_pool
distribute_pool-IsPool rt c h = search (Ends->>=, gives, IsPool-energy c.pool, h) depth 14

run_join-IsPool :
    (rt : Runtime) (producers : Accounts EnergyProducer) (p : Pools) (pool_at producer_at : Pubkey)
    → AllOf IsPool p.pools
    → Ends (λ (q : Pools). AllOf IsPool q.pools) (run_join rt producers p pool_at producer_at)
unfolding run_join
run_join-IsPool rt producers p pool_at producer_at h =
    let at = share_key rt pool_at producer_at in
    let share = unwrap_or (p.shares at) (new_share at) in
    Ends-follow (load (p.pools pool_at)) _ (load-Holds _ (h.holds pool_at)) (λ pool sound.
      Ends->>= (derived pool_at (pool_key rt pool.authority)) _ (λ _ _.
        Ends->>= (load (producers producer_at)) _ (λ producer _.
          Ends->>= (derived producer_at (producer_key rt producer.device_id)) _ (λ _ _.
            Ends->>= (join_pool rt pool producer_at share) _ (λ (joined, kept) e.
              let (good, _, _) = join_pool-IsPool rt pool joined producer_at share kept sound e in
              gives _ (AllOf-store p.pools pool_at joined h good))))))

run_distribution-ArePools :
    (rt : Runtime) (l : Ledger) (signer pool_at : Pubkey) (remaining : List RemainingAccount)
    → ArePools l
    → Ends (λ z. ArePools z.0) (run_distribution rt l signer pool_at remaining)
unfolding run_distribution
run_distribution-ArePools rt l signer pool_at remaining h =
    Ends-follow (load (l.pools.pools pool_at)) _ (load-Holds _ (h.holds pool_at)) (λ pool sound.
      Ends->>= (derived pool_at (pool_key rt pool.authority)) _ (λ _ _.
        Ends->>= (load l.vault) _ (λ vault _. Ends->>= (load l.token_mint) _ (λ t _.
          Ends-follow (distribute_pool rt _) _ (distribute_pool-IsPool rt _ sound)
            (λ out good. gives _ (AllOf-store l.pools.pools pool_at out.pool h good))))))

run_pools-ArePools :
    (rt : Runtime) (l : Ledger) (signer : Pubkey) (c : PoolCall)
    → ArePools l
    → Ends (λ z. ArePools z.0) (run_pools rt l signer c)
unfolding run_pools
run_pools-ArePools rt l signer (PoolCall.create_pool threshold) h =
    let key = pool_key rt signer in
    let old = l.pools.pools key in
    Ends-follow (create_pool rt old key signer threshold) _
      (create_pool-IsPool rt old key signer threshold)
      (λ p sound. gives _ (AllOf-store l.pools.pools key p h sound))
run_pools-ArePools rt l signer (PoolCall.join_pool pool_at producer_at) h =
    Ends-follow (run_join rt l.devices.producers l.pools pool_at producer_at) _
      (run_join-IsPool rt l.devices.producers l.pools pool_at producer_at h) (λ _ p. gives _ p)
run_pools-ArePools rt l signer (PoolCall.distribute_pool pool_at remaining) h =
    run_distribution-ArePools rt l signer pool_at remaining h

ruleset follows = (Ends->>=, gives)

run_setup-ArePools :
    (rt : Runtime) (l : Ledger) (signer : Pubkey) (c : SetupCall)
    → ArePools l
    → Ends ArePools (run_setup rt l signer c)
unfolding run_setup
run_setup-ArePools rt l signer SetupCall.initialize_token h = search follows
run_setup-ArePools rt l signer _ h = search follows

run_economy-ArePools :
    (rt : Runtime) (l : Ledger) (signer : Pubkey) (c : EconomyCall)
    → ArePools l
    → Ends (λ z. ArePools z.0) (run_economy rt l signer c)
unfolding run_economy
run_economy-ArePools rt l signer (EconomyCall.allocate_founder account) h = search follows
run_economy-ArePools rt l signer _ h = search follows

run_execution-ArePools :
    (rt : Runtime) (l : Ledger) (signer : Pubkey) (id : ℕ) (destination : TokenAccount)
    → ArePools l
    → Ends (λ z. ArePools z.0) (run_execution rt l signer id destination)
unfolding run_execution
run_execution-ArePools rt l signer id destination h = search follows depth 10

pub run-ArePools :
    (rt : Runtime) (derive : List Bytes → Pubkey) (l : Ledger) (signer : Pubkey) (c : Call)
    → ArePools l
    → Ends (λ z. ArePools z.0) (run rt derive l signer c)
unfolding run
run-ArePools rt derive l signer (Call.setup call) h =
    Ends-follow (run_setup rt l signer call) _ (run_setup-ArePools rt l signer call h)
      (λ _ p. gives _ p)
run-ArePools rt derive l signer (Call.mint_energy a r) h =
    run_mint-ArePools rt derive l signer a r h
run-ArePools rt derive l signer (Call.pools call) h = run_pools-ArePools rt l signer call h
run-ArePools rt derive l signer (Call.economy call) h = run_economy-ArePools rt l signer call h
run-ArePools rt derive l signer (Call.governance_mint id destination) h =
    run_execution-ArePools rt l signer id destination h
run-ArePools rt derive l signer _ h = search follows

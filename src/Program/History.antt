-- ===== src/Program/History.antt =====
-- The records of the devices are kept over every run of the program.
use enrg.Prelude.{ℕ, ◌≡◌, some, List}
use enrg.Solana.{Pubkey, Bytes, Runtime, TokenAccount}
use enrg.Messages.{OracleReport}
use enrg.Mint.{MintState, mint_energy}
use enrg.Program.Accounts.{Ledger}
use enrg.Program.Bootstrap.{SetupCall, run_setup}
use enrg.Program.Minting.{MintAccounts, load_context, load_state, store_state, run_mint}
use enrg.Program.Payouts.{PoolCall, EconomyCall, run_distribution, run_pools, run_economy}
use enrg.Program.Votes.{run_execution}
use enrg.Program.{Call, run}
use enrg.Program.Runs.{Run, stays, steps, Ends, gives, Ends->>=, Ends-follow, Ends-ok}
use enrg.Program.Kept.{mint_energy-Later}
use enrg.Program.Records.{
  AreKept, AreKept-refl, AreKept-trans, load-some, one_record, run_devices-Keeps,
  run_profiles-Keeps,
}

abbrev Keeps : Ledger → Ledger → Type 0
Keeps l out = AreKept l.devices.producers out.devices.producers

pub load_state-found :
    (rt : Runtime) (derive : List Bytes → Pubkey) (l : Ledger) (a : MintAccounts)
    → Ends
        (λ (s : MintState). l.devices.producers a.producer ≡ some s.producer)
        (load_state rt derive l a)
unfolding load_state
load_state-found rt derive l a =
    let found = load-some (l.devices.producers a.producer) in
    search (Ends-follow _ _ found, Ends->>=, gives) depth 16

run_mint-Keeps :
    (rt : Runtime) (derive : List Bytes → Pubkey) (l : Ledger) (signer : Pubkey) (a : MintAccounts)
    (r : OracleReport)
    → Ends (λ z. Keeps l z.0) (run_mint rt derive l signer a r)
unfolding run_mint store_state
run_mint-Keeps rt derive l signer a r = Ends->>= (load_context rt l signer a) _ (λ c _.
    Ends-follow (load_state rt derive l a) _ (load_state-found rt derive l a) (λ s found.
      Ends->>= (mint_energy rt c s r) _ (λ z e. gives _ (
        one_record l.devices a.producer s.producer z.0.producer found
          (mint_energy-Later rt c s r z e)))))

ruleset follows = (Ends->>=, gives, AreKept-refl)

run_setup-Keeps :
    (rt : Runtime) (l : Ledger) (signer : Pubkey) (c : SetupCall)
    → Ends (Keeps l) (run_setup rt l signer c)
unfolding run_setup
run_setup-Keeps rt l signer SetupCall.initialize_token = search follows
run_setup-Keeps rt l signer _ = search follows

run_economy-Keeps :
    (rt : Runtime) (l : Ledger) (signer : Pubkey) (c : EconomyCall)
    → Ends (λ z. Keeps l z.0) (run_economy rt l signer c)
unfolding run_economy
run_economy-Keeps rt l signer (EconomyCall.allocate_founder account) = search follows
run_economy-Keeps rt l signer _ = search follows

run_pools-Keeps :
    (rt : Runtime) (l : Ledger) (signer : Pubkey) (c : PoolCall)
    → Ends (λ z. Keeps l z.0) (run_pools rt l signer c)
unfolding run_pools run_distribution
run_pools-Keeps rt l signer (PoolCall.create_pool threshold) = search follows depth 14
run_pools-Keeps rt l signer (PoolCall.distribute_pool at remaining) = search follows depth 14
run_pools-Keeps rt l signer (PoolCall.join_pool _ _) = search follows

run_execution-Keeps :
    (rt : Runtime) (l : Ledger) (signer : Pubkey) (id : ℕ) (d : TokenAccount)
    → Ends (λ z. Keeps l z.0) (run_execution rt l signer id d)
unfolding run_execution
run_execution-Keeps rt l signer id d = search follows depth 12

run-Keeps :
    (rt : Runtime) (derive : List Bytes → Pubkey) (l : Ledger) (signer : Pubkey) (c : Call)
    → Ends (λ z. Keeps l z.0) (run rt derive l signer c)
unfolding run
run-Keeps rt derive l signer (Call.setup call) =
    let kept = run_setup-Keeps rt l signer call in search (Ends-follow _ _ kept, gives)
run-Keeps rt derive l signer (Call.mint_energy a r) = run_mint-Keeps rt derive l signer a r
run-Keeps rt derive l signer (Call.pools call) = run_pools-Keeps rt l signer call
run-Keeps rt derive l signer (Call.economy call) = run_economy-Keeps rt l signer call
run-Keeps rt derive l signer (Call.governance_mint id d) = run_execution-Keeps rt l signer id d
run-Keeps rt derive l signer (Call.devices call) =
    let kept = run_devices-Keeps rt derive l.vault l.oracle_registry l.devices signer call in
    search (Ends-follow _ _ kept, gives)
run-Keeps rt derive l signer (Call.profiles call) =
    let kept = run_profiles-Keeps rt derive l.devices signer call in
    search (Ends-follow _ _ kept, gives)
run-Keeps rt derive l signer _ = search follows

-- Any ledger.
abbrev pub Anything : Ledger → Type 0
Anything l = Unit

-- Over any successful instructions, a device's record stays at its address: its device id is the
-- same, its nonce and its energy never fall, an owner is not replaced by another, and a revoked
-- record stays revoked.
pub records-AreKept :
    (derive : List Bytes → Pubkey) (l out : Ledger) (minted burned : ℕ)
    → Run Anything derive l minted burned out
    → AreKept l.devices.producers out.devices.producers
records-AreKept derive l out minted burned stays = AreKept-refl l.devices.producers
records-AreKept derive l out minted burned (steps rt signer c {m = m} before _ h) =
    AreKept-trans l.devices.producers m.devices.producers out.devices.producers
      (records-AreKept derive l m _ _ before) (Ends-ok _ _ (run-Keeps rt derive m signer c) h)

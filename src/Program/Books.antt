-- ===== src/Program/Books.antt =====
-- No instruction creates the book of a staker.
use enrg.Prelude.{ℕ, ◌≢◌, List, ok}
use enrg.Solana.{Pubkey, Bytes, Runtime}
use enrg.Treasury.Stakes.{StakeInfo}
use enrg.Program.Accounts.{Accounts, Ledger, Flow, load, genesis}
use enrg.Program.Bootstrap.{SetupCall, run_setup}
use enrg.Program.Minting.{store_state, run_mint}
use enrg.Program.Payouts.{
  PoolCall, StakeCall, EconomyCall, run_distribution, run_pools, run_stakes, run_economy, book,
}
use enrg.Program.Votes.{run_execution}
use enrg.Program.{Call, run}
use enrg.Program.Runs.{
  Run, stays, steps, Ends, gives, Ends->>=, Ends-follow, Ends-ok, AllOf, load-Holds,
}
use enrg.Program.History.{Anything}

-- There is no book at all.
abbrev pub NoBooks : Accounts StakeInfo → Type 0
NoBooks = AllOf (λ s. ⊥)

run_stakes-fails :
    (rt : Runtime) (stakes : Accounts StakeInfo) (signer : Pubkey) (c : StakeCall)
    → NoBooks stakes
    → Ends (λ z. ⊥) (run_stakes rt stakes signer c)
unfolding run_stakes
run_stakes-fails rt stakes signer c h =
    Ends-follow (load (stakes (book c))) _ (load-Holds _ (h.holds (book c)))
      (λ s impossible. absurd impossible)

ruleset follows = (Ends->>=, gives)

abbrev Leaves : Ledger × Flow → Type 0
Leaves z = NoBooks z.0.stakes

run_setup-NoBooks :
    (rt : Runtime) (l : Ledger) (signer : Pubkey) (c : SetupCall)
    → NoBooks l.stakes
    → Ends (λ (out : Ledger). NoBooks out.stakes) (run_setup rt l signer c)
unfolding run_setup
run_setup-NoBooks rt l signer SetupCall.initialize_token h = search follows
run_setup-NoBooks rt l signer _ h = search follows

run_economy-NoBooks :
    (rt : Runtime) (l : Ledger) (signer : Pubkey) (c : EconomyCall)
    → NoBooks l.stakes
    → Ends Leaves (run_economy rt l signer c)
unfolding run_economy
run_economy-NoBooks rt l signer (EconomyCall.allocate_founder account) h = search follows
run_economy-NoBooks rt l signer _ h = search follows

run_pools-NoBooks :
    (rt : Runtime) (l : Ledger) (signer : Pubkey) (c : PoolCall)
    → NoBooks l.stakes
    → Ends Leaves (run_pools rt l signer c)
unfolding run_pools run_distribution
run_pools-NoBooks rt l signer (PoolCall.create_pool threshold) h = search follows
run_pools-NoBooks rt l signer _ h = search follows depth 14

run-NoBooks :
    (rt : Runtime) (derive : List Bytes → Pubkey) (l : Ledger) (signer : Pubkey) (c : Call)
    → NoBooks l.stakes
    → Ends Leaves (run rt derive l signer c)
unfolding run run_mint store_state run_execution
run-NoBooks rt derive l signer (Call.setup call) h =
    Ends-follow (run_setup rt l signer call) _ (run_setup-NoBooks rt l signer call h)
      (λ out k. gives _ k)
run-NoBooks rt derive l signer (Call.pools call) h = run_pools-NoBooks rt l signer call h
run-NoBooks rt derive l signer (Call.economy call) h = run_economy-NoBooks rt l signer call h
run-NoBooks rt derive l signer (Call.stakes call) h =
    Ends-follow (run_stakes rt l.stakes signer call) _ (run_stakes-fails rt l.stakes signer call h)
      (λ books impossible. absurd impossible)
run-NoBooks rt derive l signer _ h = search follows depth 14

no_books :
    (derive : List Bytes → Pubkey) (minted burned : ℕ) (l : Ledger)
    → Run Anything derive genesis minted burned l
    → NoBooks l.stakes
no_books derive minted burned l stays = record { holds = λ k. tt }
no_books derive minted burned l (steps rt signer c {m = m} before _ h) =
    Ends-ok _ _ (run-NoBooks rt derive m signer c (no_books derive _ _ m before)) h

-- On a ledger that successful instructions made from the empty one, no instruction on stakes
-- succeeds, whoever signs it.
pub staking_never_succeeds :
    (derive : List Bytes → Pubkey) (rt : Runtime) (minted burned : ℕ) (l : Ledger) (signer : Pubkey)
    (c : StakeCall) (z : Ledger × Flow)
    → Run Anything derive genesis minted burned l
    → run rt derive l signer (Call.stakes c) ≢ ok z
unfolding run
staking_never_succeeds derive rt minted burned l signer c z before h =
    let empty = no_books derive minted burned l before in
    Ends-ok {P = λ _. ⊥} _ z
      (Ends-follow (run_stakes rt l.stakes signer c) _ (run_stakes-fails rt l.stakes signer c empty)
        (λ books impossible. absurd impossible))
      h

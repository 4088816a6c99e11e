-- ===== src/Program/Valid.antt =====
-- The registries, the council and the quorum of every ledger that the program can reach.
use enrg.Prelude.{ℕ, ◌≡◌, arith, Option, none, some, List, ok}
use enrg.Solana.{Pubkey, Bytes, Runtime}
use enrg.Oracle.{OracleRegistry, initialize_oracle_registry}
use enrg.Oracle.Registry.{IsWellFormed, registry-IsWellFormed}
use enrg.Oracle.Registry as Registry
use enrg.Policy.{PolicyRegistry}
use enrg.Policy.Updates as Updates
use enrg.Governance.{GovernanceState}
use enrg.Program.Accounts.{Attestations, Ledger, Flow, load, genesis}
use enrg.Program.Bootstrap.{SetupCall, run_setup, run_oracles, run_policies}
use enrg.Program.Minting.{store_state, run_mint}
use enrg.Program.Payouts.{PoolCall, EconomyCall, run_distribution, run_pools, run_economy}
use enrg.Program.Votes.{run_council, run_quorum, run_execution}
use enrg.Program.{Call, run}
use enrg.Program.Runs.{
  Run, stays, steps, Ends, gives, Ends->>=, Ends-follow, Ends-ok, Holds, load-Holds,
}
use enrg.Program.History.{Anything}
use enrg.Program.Registries.{
  IsSeated, run_oracles-IsWellFormed, run_policies-InRange, run_council-IsSeated,
}
use enrg.Program.Guards.{Guards, run_quorum-IsGuarded}

initialize_oracle_registry-IsWellFormed :
    (o : Option OracleRegistry) (signer : Pubkey) (r : OracleRegistry)
    → initialize_oracle_registry o signer ≡ ok r
    → IsWellFormed r
unfolding initialize_oracle_registry
initialize_oracle_registry-IsWellFormed none signer r h =
    registry-IsWellFormed r r signer h Registry.stays
initialize_oracle_registry-IsWellFormed (some _) signer r h = absurd (ground arith)

-- The oracles are different and at most a hundred; the numbers of the policies and the threshold of
-- the quorum are in their ranges; the council has three to five different members; and every
-- finalized attestation has at least two votes.
pub record IsValid (oracles : Option OracleRegistry) (policies : Option PolicyRegistry)
    (governance : Option GovernanceState) (quorum : Attestations) : Type 0 where
  oracles_hold : Holds IsWellFormed oracles
  policies_hold : Updates.InRange policies
  council_holds : IsSeated governance
  quorum_holds : Guards quorum

abbrev pub AreValid : Ledger → Type 0
AreValid l = IsValid l.oracle_registry l.policy_registry l.council.governance l.quorum

run_setup-AreValid :
    (rt : Runtime) (l : Ledger) (signer : Pubkey) (c : SetupCall)
    → AreValid l
    → Ends AreValid (run_setup rt l signer c)
unfolding run_setup
run_setup-AreValid rt l signer SetupCall.initialize_oracle_registry v =
    Ends->>= (initialize_oracle_registry l.oracle_registry signer) _ (λ r e. gives _ (record {
      oracles_hold = initialize_oracle_registry-IsWellFormed l.oracle_registry signer r e;
      policies_hold = v.policies_hold;
      council_holds = v.council_holds;
      quorum_holds = v.quorum_holds;
    }))
run_setup-AreValid rt l signer SetupCall.initialize_token v = search (Ends->>=, gives)
run_setup-AreValid rt l signer _ v = search (Ends->>=, gives)

run_economy-AreValid :
    (rt : Runtime) (l : Ledger) (signer : Pubkey) (c : EconomyCall)
    → AreValid l
    → Ends (λ (z : Ledger × Flow). AreValid z.0) (run_economy rt l signer c)
unfolding run_economy
run_economy-AreValid rt l signer (EconomyCall.allocate_founder account) v = search (Ends->>=, gives)
run_economy-AreValid rt l signer _ v = search (Ends->>=, gives)

run_pools-AreValid :
    (rt : Runtime) (l : Ledger) (signer : Pubkey) (c : PoolCall)
    → AreValid l
    → Ends (λ (z : Ledger × Flow). AreValid z.0) (run_pools rt l signer c)
unfolding run_pools run_distribution
run_pools-AreValid rt l signer (PoolCall.create_pool threshold) v = search (Ends->>=, gives)
run_pools-AreValid rt l signer _ v = search (Ends->>=, gives) depth 14

run-AreValid :
    (rt : Runtime) (derive : List Bytes → Pubkey) (l : Ledger) (signer : Pubkey) (c : Call)
    → AreValid l
    → Ends (λ (z : Ledger × Flow). AreValid z.0) (run rt derive l signer c)
unfolding run run_mint store_state run_execution
run-AreValid rt derive l signer (Call.setup call) v =
    Ends-follow (run_setup rt l signer call) _ (run_setup-AreValid rt l signer call v)
      (λ out w. gives _ w)
run-AreValid rt derive l signer (Call.pools call) v = run_pools-AreValid rt l signer call v
run-AreValid rt derive l signer (Call.economy call) v = run_economy-AreValid rt l signer call v
run-AreValid rt derive l signer (Call.oracles call) v =
    Ends-follow (load l.oracle_registry) _ (load-Holds l.oracle_registry v.oracles_hold) (λ r w.
      Ends->>= (run_oracles r signer call) _ (λ out e. gives _ (record {
        oracles_hold = run_oracles-IsWellFormed r signer call out w e;
        policies_hold = v.policies_hold;
        council_holds = v.council_holds;
        quorum_holds = v.quorum_holds;
      })))
run-AreValid rt derive l signer (Call.policies call) v =
    Ends-follow (run_policies rt l.policy_registry signer call) _
      (run_policies-InRange rt l.policy_registry signer call v.policies_hold)
      (λ p r. gives _ (record {
        oracles_hold = v.oracles_hold;
        policies_hold = r;
        council_holds = v.council_holds;
        quorum_holds = v.quorum_holds;
      }))
run-AreValid rt derive l signer (Call.council call) v =
    Ends-follow (run_council rt l.council signer call) _
      (run_council-IsSeated rt l.council signer call v.council_holds)
      (λ c s. gives _ (record {
        oracles_hold = v.oracles_hold;
        policies_hold = v.policies_hold;
        council_holds = s;
        quorum_holds = v.quorum_holds;
      }))
run-AreValid rt derive l signer (Call.quorum call) v =
    Ends-follow
      (run_quorum rt l.oracle_registry l.council.governance l.token_mint l.quorum signer call) _
      (run_quorum-IsGuarded rt l.oracle_registry l.council.governance l.token_mint l.quorum signer
        call v.quorum_holds)
      (λ q g. gives _ (record {
        oracles_hold = v.oracles_hold;
        policies_hold = v.policies_hold;
        council_holds = v.council_holds;
        quorum_holds = g;
      }))
run-AreValid rt derive l signer _ v = search (Ends->>=, gives) depth 14

-- On every ledger that successful instructions make from the empty one: the registry holds no
-- oracle twice and at most a hundred; the basis points of the policies lie between 1 and
-- 1,000,000 and their clock skew between 0 and 3,600 seconds; the council has three to five
-- different members; the threshold of the quorum lies between two and a hundred; each of these if
-- its account is there; and every finalized attestation has at least two votes.
pub ledger-AreValid :
    (derive : List Bytes → Pubkey) (minted burned : ℕ) (l : Ledger)
    → Run Anything derive genesis minted burned l
    → AreValid l
ledger-AreValid derive minted burned l stays = record {
  oracles_hold = tt;
  policies_hold = tt;
  council_holds = tt;
  quorum_holds = record { config = tt; attestations = record { holds = λ k. tt } };
}
ledger-AreValid derive minted burned l (steps rt signer c {m = m} before _ h) =
    Ends-ok _ _ (run-AreValid rt derive m signer c (ledger-AreValid derive _ _ m before)) h

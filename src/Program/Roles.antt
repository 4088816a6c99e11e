-- ===== src/Program/Roles.antt =====
-- Who may hand a role over: the authorities of the program, over every run.
use mathlib.Core.Path.{subst}
use enrg.Prelude.{ℕ, ◌≡◌, refl, sym, ap, some, List, ok}
use enrg.Constants.{expected_deployer}
use enrg.Solana.{Pubkey, Bytes, Runtime}
use enrg.Program.Accounts.{Ledger, Flow, no_flow, load, genesis}
use enrg.Program.Bootstrap.{run_setup, run_oracles, run_policies}
use enrg.Program.Votes.{run_council, run_quorum}
use enrg.Program.{Call, run}
use enrg.Program.Runs.{Run, stays, steps, Ends, gives, Ends->>=, Ends-follow, Ends-ok, Ends-map}
use enrg.Program.Records.{load-some}
use enrg.Program.Leaves.{
  Leaves, run_mint-Leaves, run_economy-Leaves, run_execution-Leaves, run_pools-Leaves,
}
use enrg.Program.History.{Anything}
use enrg.Program.Seats.{run_council-Passes, run_quorum-Passes}
use enrg.Program.Authorities.{
  Passes, keeps, policy_authority, root, oracle_admin, council_authority, quorum_authority,
  run_oracles-Passes, run_policies-Passes,
}
use enrg.Program.SetUps.{
  IsDeployed, VaultPasses, KeepsHolders-IsDeployed, KeepsHolders-same, run_setup-SetUp,
}

-- Every role passes as it may.
pub record AreHeld (signer : Pubkey) (l out : Ledger) : Type 0 where
  vault : VaultPasses signer l out
  policies :
      Passes
        (some expected_deployer)
        (policy_authority l.policy_registry)
        signer
        (policy_authority l.policy_registry)
        (policy_authority out.policy_registry)
  oracles :
      Passes
        (some expected_deployer)
        (root l.oracle_registry)
        signer
        (root l.oracle_registry)
        (root out.oracle_registry)
  admin :
      Passes
        (some expected_deployer)
        (root l.oracle_registry)
        signer
        (oracle_admin l.oracle_registry)
        (oracle_admin out.oracle_registry)
  council :
      Passes
        (some expected_deployer)
        (council_authority l.council.governance)
        signer
        (council_authority l.council.governance)
        (council_authority out.council.governance)
  quorum :
      Passes
        (root l.oracle_registry)
        (quorum_authority l.quorum.config)
        signer
        (quorum_authority l.quorum.config)
        (quorum_authority out.quorum.config)

-- An instruction that leaves the holders of the vault, and the other roles.
Leaves-Next :
    (signer : Pubkey) (l : Ledger) (z : Ledger × Flow)
    → IsDeployed l
    → Leaves l z
    → IsDeployed z.0 × AreHeld signer l z.0
Leaves-Next signer l z d (h, (p, o, g, c)) = (
  KeepsHolders-IsDeployed l.vault z.0.vault h d,
  record {
    vault = keeps (KeepsHolders-same l.vault z.0.vault h);
    policies = keeps (ap policy_authority p);
    oracles = keeps (ap root o);
    admin = keeps (ap oracle_admin o);
    council = keeps (ap council_authority g);
    quorum = keeps (ap quorum_authority c);
  },
)

-- An instruction that touches none of these accounts.
all_kept : (signer : Pubkey) (l : Ledger) → AreHeld signer l l
all_kept signer l = record {
  vault = keeps refl;
  policies = keeps refl;
  oracles = keeps refl;
  admin = keeps refl;
  council = keeps refl;
  quorum = keeps refl;
}

abbrev Next : Pubkey → Ledger → Ledger × Flow → Type 0
Next signer l z = IsDeployed z.0 × AreHeld signer l z.0

run-AreHeld :
    (rt : Runtime) (derive : List Bytes → Pubkey) (l : Ledger) (signer : Pubkey) (c : Call)
    → IsDeployed l
    → Ends (Next signer l) (run rt derive l signer c)
unfolding run
run-AreHeld rt derive l signer (Call.oracles call) d =
    Ends-follow (load l.oracle_registry) _ (load-some l.oracle_registry) (λ r found.
      Ends->>= (run_oracles r signer call) _ (λ out e.
        let (o, a) = run_oracles-Passes r signer call out e in
        let now : AreHeld signer l (record l { oracle_registry = some out }) = record {
          vault = keeps refl;
          policies = keeps refl;
          oracles =
              subst
                (λ x. Passes (some expected_deployer) (root x) signer (root x) (some out.authority))
                (sym found) o;
          admin =
              subst
                (λ x.
                  Passes (some expected_deployer) (root x) signer (oracle_admin x)
                    (some out.oracle_admin))
                (sym found) a;
          council = keeps refl;
          quorum = keeps refl;
        } in
        gives _ (d, now)))
run-AreHeld rt derive l signer (Call.policies call) d =
    Ends->>= (run_policies rt l.policy_registry signer call) _ (λ out e.
      let now : AreHeld signer l (record l { policy_registry = some out }) = record {
        vault = keeps refl;
        policies = run_policies-Passes rt l.policy_registry signer call out e;
        oracles = keeps refl;
        admin = keeps refl;
        council = keeps refl;
        quorum = keeps refl;
      } in
      gives _ (d, now))
run-AreHeld rt derive l signer (Call.council call) d =
    Ends-follow (run_council rt l.council signer call) _
      (run_council-Passes rt l.council signer call)
      (λ out h.
        let now : AreHeld signer l (record l { council = out }) = record {
          vault = keeps refl;
          policies = keeps refl;
          oracles = keeps refl;
          admin = keeps refl;
          council = h;
          quorum = keeps refl;
        } in
        gives _ (d, now))
run-AreHeld rt derive l signer (Call.quorum call) d =
    Ends-follow
      (run_quorum rt l.oracle_registry l.council.governance l.token_mint l.quorum signer call) _
      (run_quorum-Passes rt l.oracle_registry l.council.governance l.token_mint l.quorum signer
        call)
      (λ out h.
        let now : AreHeld signer l (record l { quorum = out }) = record {
          vault = keeps refl;
          policies = keeps refl;
          oracles = keeps refl;
          admin = keeps refl;
          council = keeps refl;
          quorum = h;
        } in
        gives _ (d, now))
run-AreHeld rt derive l signer (Call.setup call) d =
    Ends-follow (run_setup rt l signer call) _ (run_setup-SetUp rt l signer call d)
      (λ out ((deployed, v), o, a, p, g, c).
        let now : AreHeld signer l out = record {
          vault = v;
          policies = keeps (ap policy_authority p);
          oracles = o;
          admin = a;
          council = keeps (ap council_authority g);
          quorum = keeps (ap quorum_authority c);
        } in
        gives _ (deployed, now))
run-AreHeld rt derive l signer (Call.mint_energy a r) d =
    Ends-map _ (run_mint-Leaves rt derive l signer a r) (λ z. Leaves-Next signer l z d)
run-AreHeld rt derive l signer (Call.pools call) d =
    Ends-map _ (run_pools-Leaves rt l signer call) (λ z. Leaves-Next signer l z d)
run-AreHeld rt derive l signer (Call.economy call) d =
    Ends-map _ (run_economy-Leaves rt l signer call) (λ z. Leaves-Next signer l z d)
run-AreHeld rt derive l signer (Call.governance_mint id r) d =
    Ends-map _ (run_execution-Leaves rt l signer id r) (λ z. Leaves-Next signer l z d)
run-AreHeld rt derive l signer _ d =
    let still : Next signer l (l, no_flow) = (d, all_kept signer l) in
    search (Ends->>=, gives, still)

deployed :
    (derive : List Bytes → Pubkey) (minted burned : ℕ) (l : Ledger)
    → Run Anything derive genesis minted burned l
    → IsDeployed l
deployed derive minted burned l stays = tt
deployed derive minted burned l (steps rt signer c {m = m} before _ h) =
    (Ends-ok _ _ (run-AreHeld rt derive m signer c (deployed derive _ _ m before)) h).0

-- On a ledger that successful instructions made from the empty one, a successful instruction
-- changes the authority of the vault, of the policies, of the oracle registry, of the council or
-- of the quorum, or the admin of the oracles, only if its signer holds that role before (for the
-- admin: holds the authority of the registry), or if the role was vacant and its signer is the
-- expected deployer, for the quorum the authority of the oracle registry.
pub roles_change_by_holder :
    (derive : List Bytes → Pubkey) (rt : Runtime) (minted burned : ℕ) (l out : Ledger)
    (signer : Pubkey) (c : Call) (flow : Flow)
    → Run Anything derive genesis minted burned l
    → run rt derive l signer c ≡ ok (out, flow)
    → AreHeld signer l out
roles_change_by_holder derive rt minted burned l out signer c flow before h =
    (Ends-ok _ _ (run-AreHeld rt derive l signer c (deployed derive minted burned l before)) h).1

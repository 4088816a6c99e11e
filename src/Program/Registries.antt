-- ===== src/Program/Registries.antt =====
-- What the handlers of the oracles, the policies, the council and the quorum keep of their accounts.
use mathlib.Core.Path.{subst}
use enrg.Prelude.{
  ℕ, ◌≡◌, sym, ap, arith, Bool, ◌==◌, Option, none, some, List, ok, require_then, check_then,
  ok-injective,
}
use enrg.Constants.{expected_deployer}
use enrg.Solana.{Pubkey, Bytes, Runtime}
use enrg.Oracle.{OracleRegistry}
use enrg.Oracle.Registry.{IsWellFormed, adds, removes, sets_admin, sets_authority, ⟶-IsWellFormed}
use enrg.Policy.{PolicyRegistry, initialize_policy_registry, update_policy, set_policy_authority}
use enrg.Policy.Updates as Updates
use enrg.Governance.{
  GovernanceState, Proposal, Addressed, validate_members, initialize_governance, update_members,
  set_governance_authority, create_proposal, vote, decide, proposal_address,
}
use enrg.Governance.Council.{IsCouncil, validate_members-IsCouncil}
use enrg.Program.Accounts.{Council, load}
use enrg.Program.Bootstrap.{OracleCall, PolicyCall, run_oracles, run_policies}
use enrg.Program.Votes.{GovernanceCall, addressed, run_council}
use enrg.Program.Runs.{Ends, fails, gives, Ends->>=, Ends-follow, Ends-from, Holds, load-Holds}
use enrg.Program.Records.{load-some}

pub run_oracles-IsWellFormed :
    (r : OracleRegistry) (signer : Pubkey) (c : OracleCall) (out : OracleRegistry)
    → IsWellFormed r
    → run_oracles r signer c ≡ ok out
    → IsWellFormed out
unfolding run_oracles
run_oracles-IsWellFormed r signer (OracleCall.add_oracle k) out w h =
    ⟶-IsWellFormed r out (adds r signer k h) w
run_oracles-IsWellFormed r signer (OracleCall.remove_oracle k) out w h =
    ⟶-IsWellFormed r out (removes r signer k h) w
run_oracles-IsWellFormed r signer (OracleCall.set_oracle_admin k) out w h =
    ⟶-IsWellFormed r out (sets_admin r signer k h) w
run_oracles-IsWellFormed r signer (OracleCall.set_oracle_registry_authority k) out w h =
    ⟶-IsWellFormed r out (sets_authority r signer k h) w

pub run_policies-InRange :
    (rt : Runtime) (o : Option PolicyRegistry) (signer : Pubkey) (c : PolicyCall)
    → Updates.InRange o
    → Ends (λ p. Updates.InRange (some p)) (run_policies rt o signer c)
unfolding run_policies
run_policies-InRange rt o signer (PolicyCall.initialize_policy_registry bump) r =
    Ends-from (initialize_policy_registry rt o signer bump)
      (λ p h. Updates.⟶-InRange o (some p) (Updates.initializes rt o signer bump h) r)
run_policies-InRange rt o signer (PolicyCall.update_policy u) r =
    Ends-follow (load o) _ (load-some o) (λ p found. Ends-from (update_policy rt p signer u) (λ q h.
      Updates.⟶-InRange (some p) (some q) (Updates.updates rt p signer u h)
        (subst Updates.InRange found r)))
run_policies-InRange rt o signer (PolicyCall.set_policy_authority k) r =
    Ends-follow (load o) _ (load-some o) (λ p found.
      Ends-from (set_policy_authority rt p signer k) (λ q h.
        Updates.⟶-InRange (some p) (some q) (Updates.hands_over rt p signer k h)
          (subst Updates.InRange found r)))

-- The members of the council, if there is one, are three to five, and none of them twice.
abbrev pub IsSeated : Option GovernanceState → Type 0
IsSeated = Holds (λ (g : GovernanceState). IsCouncil g.members)

initialize_governance-IsCouncil :
    (o : Option GovernanceState) (signer : Pubkey) (members : List Pubkey) (g : GovernanceState)
    → initialize_governance o signer members ≡ ok g
    → IsCouncil g.members
unfolding initialize_governance
initialize_governance-IsCouncil (some _) signer members g h = absurd (ground arith)
initialize_governance-IsCouncil none signer members g h =
    let (_, h₁) = require_then (signer == expected_deployer) _ _ h in
    let (valid, h₂) = check_then (validate_members members) _ h₁ in
    let same = ap (λ (x : GovernanceState). x.members) (ok-injective _ g h₂) in
    subst IsCouncil same ((validate_members-IsCouncil members).0 valid)

update_members-IsCouncil :
    (g g' : GovernanceState) (signer : Pubkey) (members : List Pubkey)
    → update_members g signer members ≡ ok g'
    → IsCouncil g'.members
unfolding update_members
update_members-IsCouncil g g' signer members h =
    let (_, h₁) = require_then (g.authority == signer) _ _ h in
    let (valid, h₂) = check_then (validate_members members) _ h₁ in
    let same = ap (λ (x : GovernanceState). x.members) (ok-injective _ g' h₂) in
    subst IsCouncil same ((validate_members-IsCouncil members).0 valid)

set_governance_authority-members :
    (g : GovernanceState) (signer k : Pubkey)
    → Ends (λ (g' : GovernanceState). g'.members ≡ g.members) (set_governance_authority g signer k)
unfolding set_governance_authority
set_governance_authority-members g signer k = search (Ends->>=, gives)

create_proposal-members :
    (rt : Runtime) (g : GovernanceState) (prev : Option Addressed) (existing : Option Proposal)
    (signer : Pubkey) (id : ℕ) (title : Bytes) (amount : ℕ) (d : Pubkey)
    → Ends
        (λ (z : GovernanceState × (Option Addressed × Proposal)). z.0.members ≡ g.members)
        (create_proposal rt g prev existing signer id title amount d)
unfolding create_proposal
create_proposal-members rt g prev none signer id title amount d = search (Ends->>=, gives) depth 16
create_proposal-members rt g prev (some _) signer id title amount d = fails _

decide-members :
    (rt : Runtime) (g : GovernanceState) (p : Proposal) → (decide rt g p).0.members ≡ g.members
decide-members rt g p = ground arith

vote-members :
    (rt : Runtime) (g : GovernanceState) (p : Proposal) (voter : Pubkey) (id : ℕ) (b : Bool)
    → Ends (λ (z : GovernanceState × Proposal). z.0.members ≡ g.members) (vote rt g p voter id b)
unfolding vote
vote-members rt g p voter id b = search (Ends->>=, gives, decide-members) depth 16

pub run_council-IsSeated :
    (rt : Runtime) (c : Council) (signer : Pubkey) (call : GovernanceCall)
    → IsSeated c.governance
    → Ends (λ (out : Council). IsSeated out.governance) (run_council rt c signer call)
unfolding run_council
run_council-IsSeated rt c signer (GovernanceCall.initialize_governance members) s =
    Ends->>= (initialize_governance c.governance signer members) _
      (λ g e. gives _ (initialize_governance-IsCouncil c.governance signer members g e))
run_council-IsSeated rt c signer (GovernanceCall.update_members members) s =
    Ends->>= (load c.governance) _ (λ g _.
      Ends->>= (update_members g signer members) _
        (λ g' e. gives _ (update_members-IsCouncil g g' signer members e)))
run_council-IsSeated rt c signer (GovernanceCall.set_governance_authority k) s =
    Ends-follow (load c.governance) _ (load-Holds c.governance s) (λ g seated.
      Ends-follow (set_governance_authority g signer k) _
        (set_governance_authority-members g signer k)
        (λ g' same. gives _ (subst IsCouncil (sym same) seated)))
run_council-IsSeated rt c signer (GovernanceCall.create_proposal prev id title amount d) s =
    let at = proposal_address rt id in
    Ends-follow (load c.governance) _ (load-Holds c.governance s) (λ g seated.
      Ends->>= (addressed c.proposals prev) _ (λ p _.
        Ends-follow (create_proposal rt g p (c.proposals at) signer id title amount d) _
          (create_proposal-members rt g p (c.proposals at) signer id title amount d)
          (λ z same. gives _ (subst IsCouncil (sym same) seated))))
run_council-IsSeated rt c signer (GovernanceCall.vote id b) s =
    let at = proposal_address rt id in
    Ends-follow (load c.governance) _ (load-Holds c.governance s) (λ g seated.
      Ends->>= (load (c.proposals at)) _ (λ p _.
        Ends-follow (vote rt g p signer id b) _ (vote-members rt g p signer id b)
          (λ z same. gives _ (subst IsCouncil (sym same) seated))))

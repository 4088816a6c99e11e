-- ===== src/Program/Seats.antt =====
-- How the handlers of the council and of the quorum hand their authorities over.
use mathlib.Core.Path.{subst}
use enrg.Prelude.{ℕ, ◌≡◌, refl, sym, ap, arith, Bool, Option, none, some, List, ok}
use enrg.Constants.{expected_deployer}
use enrg.Solana.{Pubkey, Bytes, Runtime}
use enrg.Vault.{TokenMint}
use enrg.Oracle.{OracleRegistry}
use enrg.Governance.{
  GovernanceState, Proposal, Addressed, initialize_governance, update_members,
  set_governance_authority, create_proposal, vote, decide, proposal_address,
}
use enrg.Quorum.{OracleQuorumConfig, init_oracle_quorum, set_oracle_quorum, set_quorum_authority}
use enrg.Program.Accounts.{Council, Attestations, load}
use enrg.Program.Votes.{GovernanceCall, QuorumCall, addressed, run_council, run_quorum}
use enrg.Program.Runs.{Ends, fails, gives, Ends->>=, Ends-follow}
use enrg.Program.Records.{load-some}
use enrg.Program.Authorities.{
  Passes, keeps, hands_over, creates, root, council_authority, quorum_authority, loaded-Passes,
}

initialize_governance-Passes :
    (o : Option GovernanceState) (signer : Pubkey) (members : List Pubkey) (g : GovernanceState)
    → initialize_governance o signer members ≡ ok g
    → Passes
        (some expected_deployer)
        (council_authority o)
        signer
        (council_authority o)
        (some g.authority)
unfolding initialize_governance
initialize_governance-Passes none signer members g h = creates refl (ground arith)
initialize_governance-Passes (some _) signer members g h = absurd (ground arith)

update_members-authority :
    (g : GovernanceState) (signer : Pubkey) (members : List Pubkey)
    → Ends (λ (g' : GovernanceState). g'.authority ≡ g.authority) (update_members g signer members)
unfolding update_members
update_members-authority g signer members = search (Ends->>=, gives)

set_governance_authority-signer :
    (g : GovernanceState) (signer new_authority : Pubkey) (g' : GovernanceState)
    → set_governance_authority g signer new_authority ≡ ok g'
    → g.authority ≡ signer
unfolding set_governance_authority
set_governance_authority-signer g signer new_authority g' h = ground arith

create_proposal-authority :
    (rt : Runtime) (g : GovernanceState) (prev : Option Addressed) (existing : Option Proposal)
    (signer : Pubkey) (id : ℕ) (title : Bytes) (amount : ℕ) (d : Pubkey)
    → Ends
        (λ (z : GovernanceState × (Option Addressed × Proposal)). z.0.authority ≡ g.authority)
        (create_proposal rt g prev existing signer id title amount d)
unfolding create_proposal
create_proposal-authority rt g prev none signer id title amount d =
    search (Ends->>=, gives) depth 16
create_proposal-authority rt g prev (some _) signer id title amount d = fails _

decide-authority :
    (rt : Runtime) (g : GovernanceState) (p : Proposal) → (decide rt g p).0.authority ≡ g.authority
decide-authority rt g p = ground arith

vote-authority :
    (rt : Runtime) (g : GovernanceState) (p : Proposal) (voter : Pubkey) (id : ℕ) (b : Bool)
    → Ends
        (λ (z : GovernanceState × Proposal). z.0.authority ≡ g.authority)
        (vote rt g p voter id b)
unfolding vote
vote-authority rt g p voter id b = search (Ends->>=, gives, decide-authority) depth 16

pub run_council-Passes :
    (rt : Runtime) (c : Council) (signer : Pubkey) (call : GovernanceCall)
    → Ends
        (λ (out : Council).
          Passes
            (some expected_deployer)
            (council_authority c.governance)
            signer
            (council_authority c.governance)
            (council_authority out.governance))
        (run_council rt c signer call)
unfolding run_council
run_council-Passes rt c signer (GovernanceCall.initialize_governance members) =
    Ends->>= (initialize_governance c.governance signer members) _
      (λ g e. gives _ (initialize_governance-Passes c.governance signer members g e))
run_council-Passes rt c signer (GovernanceCall.update_members members) =
    Ends-follow (load c.governance) _ (load-some c.governance) (λ g found.
      Ends-follow (update_members g signer members) _ (update_members-authority g signer members)
        (λ g' same.
          gives _ (loaded-Passes _ _ _ signer c.governance g found (keeps (ap some same)))))
run_council-Passes rt c signer (GovernanceCall.set_governance_authority k) =
    Ends-follow (load c.governance) _ (load-some c.governance) (λ g found.
      Ends->>= (set_governance_authority g signer k) _ (λ g' e.
        let signed = set_governance_authority-signer g signer k g' e in
        gives _ (loaded-Passes _ _ _ signer c.governance g found (hands_over (ap some signed)))))
run_council-Passes rt c signer (GovernanceCall.create_proposal prev id title amount d) =
    let at = proposal_address rt id in
    Ends-follow (load c.governance) _ (load-some c.governance) (λ g found.
      Ends->>= (addressed c.proposals prev) _ (λ p _.
        Ends-follow (create_proposal rt g p (c.proposals at) signer id title amount d) _
          (create_proposal-authority rt g p (c.proposals at) signer id title amount d)
          (λ z same.
            gives _ (loaded-Passes _ _ _ signer c.governance g found (keeps (ap some same))))))
run_council-Passes rt c signer (GovernanceCall.vote id b) =
    let at = proposal_address rt id in
    Ends-follow (load c.governance) _ (load-some c.governance) (λ g found.
      Ends->>= (load (c.proposals at)) _ (λ p _.
        Ends-follow (vote rt g p signer id b) _ (vote-authority rt g p signer id b) (λ z same.
          gives _ (loaded-Passes _ _ _ signer c.governance g found (keeps (ap some same))))))

init_oracle_quorum-Passes :
    (o : Option OracleQuorumConfig) (r : OracleRegistry) (signer : Pubkey) (required : Bool)
    (threshold reward : ℕ) (c : OracleQuorumConfig)
    → init_oracle_quorum o r signer required threshold reward ≡ ok c
    → Passes (some r.authority) (quorum_authority o) signer (quorum_authority o) (some c.authority)
unfolding init_oracle_quorum
init_oracle_quorum-Passes none r signer required threshold reward c h = creates refl (ground arith)
init_oracle_quorum-Passes (some _) r signer required threshold reward c h = absurd (ground arith)

set_oracle_quorum-authority :
    (c : OracleQuorumConfig) (signer : Pubkey) (required : Bool) (threshold reward : ℕ)
    → Ends
        (λ (c' : OracleQuorumConfig). c'.authority ≡ c.authority)
        (set_oracle_quorum c signer required threshold reward)
unfolding set_oracle_quorum
set_oracle_quorum-authority c signer required threshold reward = search (Ends->>=, gives)

set_quorum_authority-signer :
    (c c' : OracleQuorumConfig) (signer new_authority : Pubkey)
    → set_quorum_authority c signer new_authority ≡ ok c'
    → c.authority ≡ signer
unfolding set_quorum_authority
set_quorum_authority-signer c c' signer new_authority h = ground arith

module _ (rt : Runtime) (oracles : Option OracleRegistry) (governance : Option GovernanceState)
    (token_mint : Option TokenMint) (q : Attestations) (signer : Pubkey) where
  pub run_quorum-Passes :
      (call : QuorumCall)
      → Ends
          (λ (out : Attestations).
            Passes
              (root oracles)
              (quorum_authority q.config)
              signer
              (quorum_authority q.config)
              (quorum_authority out.config))
          (run_quorum rt oracles governance token_mint q signer call)
  unfolding run_quorum
  run_quorum-Passes (QuorumCall.init_oracle_quorum required threshold reward) =
      Ends-follow (load oracles) _ (load-some oracles) (λ r found.
        Ends->>= (init_oracle_quorum q.config r signer required threshold reward) _ (λ c e.
          let new = init_oracle_quorum-Passes q.config r signer required threshold reward c e in
          gives _ (
            subst
              (λ o.
                Passes (root o) (quorum_authority q.config) signer (quorum_authority q.config)
                  (some c.authority))
              (sym found) new)))
  run_quorum-Passes (QuorumCall.set_oracle_quorum required threshold reward) =
      Ends-follow (load q.config) _ (load-some q.config) (λ c found.
        Ends-follow (set_oracle_quorum c signer required threshold reward) _
          (set_oracle_quorum-authority c signer required threshold reward)
          (λ c' same. gives _ (loaded-Passes _ _ _ signer q.config c found (keeps (ap some same)))))
  run_quorum-Passes (QuorumCall.set_quorum_authority k) =
      Ends-follow (load q.config) _ (load-some q.config) (λ c found.
        Ends->>= (set_quorum_authority c signer k) _ (λ c' e.
          let signed = set_quorum_authority-signer c c' signer k e in
          gives _ (loaded-Passes _ _ _ signer q.config c found (hands_over (ap some signed)))))
  run_quorum-Passes _ =
      let same : quorum_authority q.config ≡ quorum_authority q.config = refl in
      search (Ends->>=, gives, keeps, same) depth 14

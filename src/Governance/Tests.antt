-- ===== src/Governance/Tests.antt =====
-- A proposal of three members: two vote for it, and it is executed after the timelock.
use enrg.Prelude.{◌≡◌, refl, true, none, [], ◌∷◌, ok, contains}
use enrg.Prelude.Int.{pos, ◌+ℤ◌}
use enrg.Solana.{Runtime, TokenAccount}
use enrg.Samples.{a_runtime, a_vault}
use enrg.Vault.{Vault}
use enrg.Governance.{
  GovernanceState, Proposal, ProposalStatus, executable, validate_amount_atomic,
  require_no_collision, cancel_active, create_proposal, vote, governance_mint,
}
use enrg.Governance.Votes.{IsCounted, votes_on, stays, steps, proposal-IsCounted}
use enrg.Governance.Execution.{IsExecuted, governance_mint-IsExecuted}

abbrev council : GovernanceState
council = record {
  authority = 1;
  members = 2 ∷ 3 ∷ 4 ∷ [];
  proposal_count = 0;
  active_proposal_id = 0;
}

abbrev busy : GovernanceState
busy = record council { proposal_count = 1; active_proposal_id = 1 }

abbrev idle : GovernanceState
idle = record council { proposal_count = 1 }

abbrev new_proposal : Proposal
new_proposal = record {
  id = 1;
  proposer = 1;
  title = [];
  amount_atomic = 500;
  destination = 9;
  status = ProposalStatus.pending;
  created_at = pos 1_000_000;
  approved_at = pos 0;
  executed_at = pos 0;
  yes_votes = 0;
  no_votes = 0;
  member_snapshot_count = 3;
  voted_members = [];
}

abbrev once : Proposal
once = record new_proposal { yes_votes = 1; voted_members = 2 ∷ [] }

abbrev twice : Proposal
twice = record new_proposal {
  yes_votes = 2;
  voted_members = 2 ∷ 3 ∷ [];
  status = ProposalStatus.approved;
  approved_at = pos 1_000_000;
}

creates : create_proposal a_runtime council none none 1 1 [] 500 9 ≡ ok (busy, (none, new_proposal))
unfolding create_proposal validate_amount_atomic require_no_collision cancel_active
creates = refl

first_vote : vote a_runtime busy new_proposal 2 1 true ≡ ok (busy, once)
unfolding vote contains
first_vote = refl

second_vote : vote a_runtime busy once 3 1 true ≡ ok (idle, twice)
unfolding vote contains
second_vote = refl

proposal-IsCounted_example : IsCounted twice
proposal-IsCounted_example =
    proposal-IsCounted a_runtime council busy none none none 1 1 [] 500 9 new_proposal twice creates
      (steps (steps stays (votes_on a_runtime busy busy new_proposal 2 1 true once first_vote))
        (votes_on a_runtime busy idle once 3 1 true twice second_vote))

abbrev later : Runtime
later = record a_runtime { now = pos 1_604_800 }

abbrev a_destination : TokenAccount
a_destination = record { key = 33; mint = 20; owner = 1; amount = 0 }

abbrev done : Proposal
done = record twice { status = ProposalStatus.executed; executed_at = pos 1_604_800 }

abbrev raised : Vault
raised = record a_vault { total_supply = 500 }

executes : governance_mint later twice a_vault 20 20 a_destination 1 ≡ ok (done, raised)
unfolding governance_mint executable ◌+ℤ◌
executes = refl

governance_mint-IsExecuted_example : IsExecuted later twice done a_vault raised
governance_mint-IsExecuted_example =
    governance_mint-IsExecuted later twice done a_vault raised 20 20 a_destination 1 executes

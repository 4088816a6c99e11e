-- ===== src/Governance.antt =====
-- programs/enrg-mvp/src/state/governance.rs and instructions/governance.rs: proposals to mint, the
-- members' votes on them, and the mint of an approved one after the timelock. A text is its bytes.
pub mod Votes
pub mod Execution
pub mod Council
mod Tests
use enrg.Prelude.{
  ℕ, ◌+◌, ◌/◌, Bool, true, false, not, ◌&&◌, ◌||◌, Option, none, some, List, [], ◌∷◌, length,
  contains, push, ltb, leb, ◌==◌, if◌then◌else◌, checked_add, u32_max, u64_max, Result, ok, err,
  code, framework, ErrorCode, require, ok_or, ◌>>=◌, ◌>>◌, ◌%◌,
}
use enrg.Prelude.Int.{ℤ, pos, leb_ℤ, saturating_add_i64}
use enrg.Constants.{
  governance_member_max, governance_min_members, proposal_amount_max_atomic, proposal_title_max_len,
  timelock_delay, expected_deployer,
}
use enrg.Solana.{Pubkey, default_key, Bytes, Runtime, TokenAccount, mint_to}
use enrg.Messages.{u64_bytes}
use enrg.Vault.{Vault}

pub data ProposalStatus : Type 0 where
  pending approved rejected cancelled executed : ProposalStatus

abbrev pub is_pending : ProposalStatus → Bool
is_pending pending = true
is_pending _ = false

abbrev pub is_approved : ProposalStatus → Bool
is_approved approved = true
is_approved _ = false

pub record GovernanceState : Type 0 where
  pub authority : Pubkey
  pub members : List Pubkey
  pub proposal_count : ℕ
  pub active_proposal_id : ℕ

abbrev pub is_member : GovernanceState → Pubkey → Bool
is_member g who = contains who g.members

pub record Proposal : Type 0 where
  pub id : ℕ
  pub proposer : Pubkey
  pub title : Bytes
  pub amount_atomic : ℕ
  pub destination : Pubkey
  pub status : ProposalStatus
  pub created_at : ℤ
  pub approved_at : ℤ
  pub executed_at : ℤ
  pub yes_votes : ℕ
  pub no_votes : ℕ
  pub member_snapshot_count : ℕ
  pub voted_members : List Pubkey

-- The sums of the votes fit a word: they count the members who voted.
abbrev pub quorum_met : Proposal → Bool
quorum_met p =
    ltb p.no_votes p.yes_votes && ltb (p.member_snapshot_count / 2) (p.yes_votes + p.no_votes)

abbrev pub all_voted : Proposal → Bool
all_voted p = leb p.member_snapshot_count (p.yes_votes + p.no_votes)

abbrev pub has_voted : Proposal → Pubkey → Bool
has_voted p member = contains member p.voted_members

unfoldable pub executable : Proposal → ℤ → Bool
executable p now =
    is_approved p.status && leb_ℤ (saturating_add_i64 p.approved_at (pos timelock_delay)) now

-- The loop of `validate_members`; `seen` is the slice before the current member.
unfoldable pub no_duplicate : List Pubkey → List Pubkey → Result (Unit {0})
no_duplicate seen [] = ok tt
no_duplicate seen (m ∷ ms) =
    let rest = no_duplicate (push seen m) ms in
    if contains m seen then err (code ErrorCode.duplicate_member) else rest

unfoldable pub validate_members : List Pubkey → Result (Unit {0})
validate_members members =
    if ltb (length members) governance_min_members || ltb governance_member_max (length members)
    then err (code ErrorCode.invalid_member_list)
    else no_duplicate [] members

unfoldable pub validate_amount_atomic : ℕ → Result (Unit {0})
validate_amount_atomic amount =
    if amount == 0
    then err (code ErrorCode.zero_amount_mint)
    else if ltb proposal_amount_max_atomic amount
    then err (code ErrorCode.amount_cap_exceeded)
    else ok tt

unfoldable pub require_no_collision : ℕ → Bool → Result (Unit {0})
require_no_collision active prev_provided =
    if not (active == 0) && not prev_provided
    then err (code ErrorCode.proposal_not_active)
    else ok tt

unfoldable pub initialize_governance :
    Option GovernanceState → Pubkey → List Pubkey → Result GovernanceState
initialize_governance (some _) signer members = err (framework 0)
initialize_governance none signer members = do
  require (signer == expected_deployer) ErrorCode.unauthorized_deployer
  validate_members members
  ok (record { authority = signer; members = members; proposal_count = 0; active_proposal_id = 0 })

unfoldable pub update_members : GovernanceState → Pubkey → List Pubkey → Result GovernanceState
update_members g signer members = do
  require (g.authority == signer) ErrorCode.not_governance_authority
  validate_members members
  ok (record g { members = members })

unfoldable pub set_governance_authority : GovernanceState → Pubkey → Pubkey → Result GovernanceState
set_governance_authority g signer new_authority = do
  require (g.authority == signer) ErrorCode.not_governance_authority
  require (not (new_authority == default_key)) ErrorCode.invalid_parameter
  ok (record g { authority = new_authority })

-- A proposal and the address it was given at.
pub record Addressed : Type 0 where
  pub key : Pubkey
  pub account : Proposal

-- `b"proposal"`
abbrev pub proposal_seed : Bytes
proposal_seed = 112 ∷ 114 ∷ 111 ∷ 112 ∷ 111 ∷ 115 ∷ 97 ∷ 108 ∷ []

abbrev pub proposal_address : Runtime → ℕ → Pubkey
proposal_address rt id = rt.find_program_address (proposal_seed ∷ u64_bytes id ∷ [])

-- An active proposal is cancelled by the next one.
unfoldable pub cancel_active :
    Runtime → GovernanceState → Option Addressed → Result (Option Addressed)
cancel_active rt g prev = if g.active_proposal_id == 0 then ok prev else do
  p ← ok_or prev ErrorCode.proposal_not_found
  require (p.key == proposal_address rt g.active_proposal_id) ErrorCode.invalid_parameter
  require (is_pending p.account.status) ErrorCode.proposal_not_active
  ok (some (record p { account = record p.account { status = cancelled } }))

abbrev pub is_some {ℓ} : {A : Type ℓ} → Option A → Bool
is_some none = false
is_some (some _) = true

unfoldable pub create_proposal :
    Runtime
    → GovernanceState
    → Option Addressed
    → Option Proposal
    → Pubkey
    → ℕ
    → Bytes
    → ℕ
    → Pubkey
    → Result (GovernanceState × (Option Addressed × Proposal))
create_proposal rt g prev (some _) signer id title amount destination = err (framework 0)
create_proposal rt g prev none signer id title amount destination = do
  require (g.authority == signer) ErrorCode.not_governance_authority
  expected_id ← ok_or (checked_add u64_max g.proposal_count 1) ErrorCode.arithmetic_overflow
  require (id == expected_id) ErrorCode.invalid_parameter
  validate_amount_atomic amount
  require (leb (length title) proposal_title_max_len) ErrorCode.invalid_parameter
  require_no_collision g.active_proposal_id (is_some prev)
  prev_after ← cancel_active rt g prev
  ok (
    record g { proposal_count = id; active_proposal_id = id },
    (
      prev_after,
      record {
        id = id;
        proposer = signer;
        title = title;
        amount_atomic = amount;
        destination = destination;
        status = pending;
        created_at = rt.now;
        approved_at = pos 0;
        executed_at = pos 0;
        yes_votes = 0;
        no_votes = 0;
        member_snapshot_count = length g.members % (u32_max + 1);
        voted_members = [];
      },
    ),
  )

abbrev pub add_vote : Proposal → Pubkey → Bool → Result Proposal
add_vote p voter true = do
  count ← ok_or (checked_add u32_max p.yes_votes 1) ErrorCode.arithmetic_overflow
  ok (record p { yes_votes = count; voted_members = push p.voted_members voter })
add_vote p voter false = do
  count ← ok_or (checked_add u32_max p.no_votes 1) ErrorCode.arithmetic_overflow
  ok (record p { no_votes = count; voted_members = push p.voted_members voter })

-- The decision that a vote may bring.
abbrev pub decide : Runtime → GovernanceState → Proposal → GovernanceState × Proposal
decide rt g p =
    if quorum_met p
    then (record g { active_proposal_id = 0 }, record p { status = approved; approved_at = rt.now })
    else if all_voted p
    then (record g { active_proposal_id = 0 }, record p { status = rejected })
    else (g, p)

unfoldable pub vote :
    Runtime → GovernanceState → Proposal → Pubkey → ℕ → Bool → Result (GovernanceState × Proposal)
vote rt g p voter proposal_id in_favour = do
  require (is_member g voter) ErrorCode.not_governance_member
  require (not (g.active_proposal_id == 0)) ErrorCode.no_active_proposal
  require (g.active_proposal_id == proposal_id) ErrorCode.proposal_not_active
  require (is_pending p.status) ErrorCode.proposal_not_active
  require (not (has_voted p voter)) ErrorCode.member_already_voted
  voted ← add_vote p voter in_favour
  ok (decide rt g voted)

-- The proposal and the vault after an execution.
unfoldable pub governance_mint :
    Runtime → Proposal → Vault → Pubkey → Pubkey → TokenAccount → ℕ → Result (Proposal × Vault)
governance_mint rt p v mint_key registered_mint destination proposal_id = do
  require (mint_key == registered_mint) ErrorCode.invalid_parameter
  require (destination.mint == mint_key) ErrorCode.destination_mint_mismatch
  require (destination.owner == p.proposer) ErrorCode.unauthorized
  require (p.id == proposal_id) ErrorCode.invalid_parameter
  require (is_approved p.status) ErrorCode.proposal_not_approved
  require (executable p rt.now) ErrorCode.timelock_not_elapsed
  new_supply ←
      ok_or (checked_add u64_max v.total_supply p.amount_atomic) ErrorCode.arithmetic_overflow
  require (leb new_supply v.max_supply) ErrorCode.supply_limit_exceeded
  rt.invoke (mint_to destination.key p.amount_atomic)
  ok (record p { status = executed; executed_at = rt.now }, record v { total_supply = new_supply })

-- ===== src/Governance/Votes.antt =====
-- The votes on a proposal, from its creation to a decision.
use enrg.Prelude.{
  ℕ, ◌+◌, ◌*◌, ◌<◌, ◌≡◌, ap, ◌∙◌, Bool, true, false, not, ◌==◌, Option, none, some, [], length,
  distinct, push, ok, arith, distinct-push, length-push, require_then, >>=-eq-ok, ok-injective,
}
use enrg.Solana.{Pubkey, Runtime, Bytes}
use enrg.Governance.{
  GovernanceState, Proposal, is_pending, is_approved, is_member, has_voted, add_vote, decide, vote,
  create_proposal, Addressed,
}

-- A successful vote; the council may have changed since the one before it.
infix 40 ◌⟶◌ ◌⟶*◌
pub data ◌⟶◌ : Proposal → Proposal → Type 0 where
  votes_on :
      (rt : Runtime) (g after : GovernanceState) (p : Proposal) (voter : Pubkey) (id : ℕ)
      (in_favour : Bool) (out : Proposal)
      → vote rt g p voter id in_favour ≡ ok (after, out)
      → p ⟶ out

pub data ◌⟶*◌ : Proposal → Proposal → Type 0 where
  stays : {p : Proposal} → p ⟶* p
  steps : {a b c : Proposal} → a ⟶* b → b ⟶ c → a ⟶* c

-- The counters count different voters, and an approval is the majority of more than half of the
-- members that there were at the creation.
pub record IsCounted (p : Proposal) : Type 0 where
  pub is_count : p.yes_votes + p.no_votes ≡ length p.voted_members
  pub is_once : distinct p.voted_members ≡ true
  pub is_majority :
      is_approved p.status ≡ true
      → (p.no_votes < p.yes_votes) × (p.member_snapshot_count < 2 * (p.yes_votes + p.no_votes))

decide-IsCounted :
    (rt : Runtime) (g : GovernanceState) (p : Proposal)
    → is_pending p.status ≡ true
    → p.yes_votes + p.no_votes ≡ length p.voted_members
    → distinct p.voted_members ≡ true
    → IsCounted (decide rt g p).1
decide-IsCounted rt g p is_open count once = record {
  is_count = ground arith;
  is_once = ground arith;
  is_majority = ground arith;
}

added :
    (p out : Proposal) (voter : Pubkey) (in_favour : Bool)
    → add_vote p voter in_favour ≡ ok out
    → (out.yes_votes + out.no_votes ≡ p.yes_votes + p.no_votes + 1)
      × (out.voted_members ≡ push p.voted_members voter)
      × (out.status ≡ p.status)
added p out voter true h = ground arith
added p out voter false h = ground arith

-- A vote that counts is by a member who had not voted, on the open proposal.
pub vote_sound :
    (rt : Runtime) (g after : GovernanceState) (p out : Proposal) (voter : Pubkey) (id : ℕ)
    (in_favour : Bool)
    → vote rt g p voter id in_favour ≡ ok (after, out)
    → (is_member g voter ≡ true)
      × (is_pending p.status ≡ true)
      × (has_voted p voter ≡ false)
      × ((voted : Proposal) × (add_vote p voter in_favour ≡ ok voted)
          × (decide rt g voted ≡ (after, out)))
unfolding vote
vote_sound rt g after p out voter id in_favour h =
    let (member, h₁) = require_then (is_member g voter) _ _ h in
    let (_, h₂) = require_then (not (g.active_proposal_id == 0)) _ _ h₁ in
    let (_, h₃) = require_then (g.active_proposal_id == id) _ _ h₂ in
    let (is_open, h₄) = require_then (is_pending p.status) _ _ h₃ in
    let (fresh, h₅) = require_then (not (has_voted p voter)) _ _ h₄ in
    let (voted, e, h₆) = >>=-eq-ok (add_vote p voter in_favour) _ h₅ in
    (member, is_open, ground arith, (voted, e, ok-injective _ (after, out) h₆))

⟶-IsCounted : (p q : Proposal) → p ⟶ q → IsCounted p → IsCounted q
⟶-IsCounted _ _ (votes_on rt g after p voter id in_favour out h) w =
    let (_, is_open, fresh, (voted, e, same)) = vote_sound rt g after p out voter id in_favour h in
    let (count, members, status) = added p voted voter in_favour e in
    let pushed = length-push p.voted_members voter in
    let once = distinct-push voter p.voted_members w.is_once fresh in
    let counted =
      decide-IsCounted rt g voted (ap is_pending status ∙ is_open)
        (omega (arith, count, w.is_count, pushed, ap length members))
        (ap distinct members ∙ once) in
    rw same at counted

created-IsCounted :
    (rt : Runtime) (g after : GovernanceState) (prev prev_after : Option Addressed)
    (existing : Option Proposal) (signer : Pubkey) (id : ℕ) (title : Bytes) (amount : ℕ)
    (destination : Pubkey) (p : Proposal)
    → create_proposal rt g prev existing signer id title amount destination
      ≡ ok (after, (prev_after, p))
    → IsCounted p
unfolding create_proposal distinct
created-IsCounted rt g after prev prev_after (some q) signer id title amount destination p h =
    absurd (ground arith)
created-IsCounted rt g after prev prev_after none signer id title amount destination p h =
    let nobody : p.voted_members ≡ [] = ground arith in
    record { is_count = ground arith; is_once = ap distinct nobody; is_majority = ground arith }

-- After any successful votes on a newly created proposal, under whatever councils, its two
-- counters add up to the number of its voters, who are all different; and if it is approved then
-- more voted for it than against it, and those who voted are more than half of the members at its
-- creation.
pub proposal-IsCounted :
    (rt : Runtime) (g after : GovernanceState) (prev prev_after : Option Addressed)
    (existing : Option Proposal) (signer : Pubkey) (id : ℕ) (title : Bytes) (amount : ℕ)
    (destination : Pubkey) (p out : Proposal)
    → create_proposal rt g prev existing signer id title amount destination
      ≡ ok (after, (prev_after, p))
    → p ⟶* out
    → IsCounted out
proposal-IsCounted rt g after prev prev_after existing signer id title amount destination p out h
      stays =
    created-IsCounted rt g after prev prev_after existing signer id title amount destination p h
proposal-IsCounted rt g after prev prev_after existing signer id title amount destination p out h
      (steps {b = b} before last) =
    ⟶-IsCounted b out last (
      proposal-IsCounted rt g after prev prev_after existing signer id title amount destination p b
        h before)

-- ===== src/Governance/Execution.antt =====
-- The execution of an approved proposal.
use enrg.Prelude.{ℕ, ◌+◌, ◌≤◌, ◌≡◌, ◌≢◌, Bool, true, false, ◌&&◌, ok, arith}
use enrg.Prelude.Int.{ℤ, pos, ◌≤ℤ◌, leb_ℤ, saturating_add_i64}
use enrg.Constants.{timelock_delay}
use enrg.Solana.{Pubkey, Runtime, TokenAccount}
use enrg.Vault.{Vault}
use enrg.Governance.{
  Proposal, GovernanceState, executable, governance_mint, is_approved, is_pending, vote,
}
use enrg.Governance.Votes.{vote_sound}

-- The vault and the proposal of an execution.
pub record IsExecuted (rt : Runtime) (p out : Proposal) (v w : Vault) : Type 0 where
  pub was_approved : is_approved p.status ≡ true
  pub was_due : saturating_add_i64 p.approved_at (pos timelock_delay) ≤ℤ rt.now
  pub is_supply : w.total_supply ≡ v.total_supply + p.amount_atomic
  pub is_capped : w.total_supply ≤ v.max_supply
  pub is_over : (is_approved out.status ≡ false) × (is_pending out.status ≡ false)

executable_due :
    (p : Proposal) (now : ℤ)
    → executable p now ≡ true
    → saturating_add_i64 p.approved_at (pos timelock_delay) ≤ℤ now
unfolding executable
executable_due p now h =
    due (is_approved p.status) (saturating_add_i64 p.approved_at (pos timelock_delay)) h
  where
    due : (b : Bool) (t : ℤ) → (b && leb_ℤ t now) ≡ true → t ≤ℤ now
    due b t e = ground arith

-- An execution of a proposal happens only when it is approved and the timelock after the approval
-- is over; it raises the supply by the amount of the proposal, to at most the maximum, and leaves
-- the proposal neither approved nor pending.
pub governance_mint-IsExecuted :
    (rt : Runtime) (p out : Proposal) (v w : Vault) (mint_key registered : Pubkey)
    (destination : TokenAccount) (id : ℕ)
    → governance_mint rt p v mint_key registered destination id ≡ ok (out, w)
    → IsExecuted rt p out v w
unfolding governance_mint
governance_mint-IsExecuted rt p out v w mint_key registered destination id h = record {
  was_approved = ground arith;
  was_due = executable_due p rt.now (ground arith);
  is_supply = ground arith;
  is_capped = ground arith;
  is_over = ground arith;
}

not_approved :
    (rt : Runtime) (p : Proposal) (v : Vault) (mint_key registered : Pubkey)
    (destination : TokenAccount) (id : ℕ) (z : Proposal × Vault)
    → is_approved p.status ≡ false
    → governance_mint rt p v mint_key registered destination id ≢ ok z
not_approved rt p v mint_key registered destination id (out, w) no_approval h = absurd (
    cc (
      no_approval,
      (governance_mint-IsExecuted rt p out v w mint_key registered destination id h).was_approved,
    ))

-- After a proposal was executed, no execution of it and no vote on it succeeds, whatever the
-- vault, the destination, the council, the voter and the time are.
pub execution_is_final :
    (rt rt' : Runtime) (p out : Proposal) (v v' w : Vault) (mint_key registered : Pubkey)
    (destination destination' : TokenAccount) (id : ℕ) (g : GovernanceState) (voter : Pubkey)
    (in_favour : Bool) (z : Proposal × Vault) (y : GovernanceState × Proposal)
    → governance_mint rt p v mint_key registered destination id ≡ ok (out, w)
    → (governance_mint rt' out v' mint_key registered destination' id ≢ ok z)
      × (vote rt' g out voter id in_favour ≢ ok y)
execution_is_final rt rt' p out v v' w mint_key registered destination destination' id g voter
      in_favour z (after, q) h =
    let over =
      (governance_mint-IsExecuted rt p out v w mint_key registered destination id h).is_over in
    (
      not_approved rt' out v' mint_key registered destination' id z over.0,
      λ again. absurd (cc (over.1, (vote_sound rt' g after out q voter id in_favour again).1)),
    )

-- ===== src/Program/LeftOut.antt =====
-- What a caller gains by leaving an optional account out.
use enrg.Prelude.{
  ℕ, ◌≡◌, refl, ap, ◌∙◌, Bool, true, false, Option, none, unwrap_or, List, ok, >>=-eq-ok,
  ok-injective,
}
use enrg.Solana.{Pubkey, Bytes, Runtime}
use enrg.Messages.{OracleReport}
use enrg.Policy.{PolicyRegistry}
use enrg.Quorum.{OracleQuorumConfig, new_attestation, submit_oracle_attestation}
use enrg.Mint.{mint_energy}
use enrg.Program.Accounts.{Attestations, Ledger, Flow, no_flow, load}
use enrg.Program.Minting.{MintAccounts, if_passed, load_context, load_state, store_state, run_mint}
use enrg.Program.Votes.{QuorumCall, attestation_key, vote_key, stake_key, run_quorum}
use enrg.Program.{Call, run}

not_passed :
    {A : Type 0} (with : Bool) (o o' : Option A)
    → with ≡ false
    → if_passed with o ≡ if_passed with o'
not_passed true o o' h = cc
not_passed false o o' h = refl

load_context-left_out :
    (rt : Runtime) (l : Ledger) (signer : Pubkey) (a : MintAccounts) (p : Option PolicyRegistry)
    → a.policies ≡ false
    → load_context rt (record l { policy_registry = p }) signer a ≡ load_context rt l signer a
unfolding load_context
load_context-left_out rt l signer a p out = rw (not_passed a.policies p l.policy_registry out)

run_mint-left_out :
    (rt : Runtime) (derive : List Bytes → Pubkey) (l : Ledger) (signer : Pubkey) (a : MintAccounts)
    (r : OracleReport) (p : Option PolicyRegistry) (out : Ledger) (flow : Flow)
    → a.policies ≡ false
    → run_mint rt derive l signer a r ≡ ok (out, flow)
    → run_mint rt derive (record l { policy_registry = p }) signer a r
      ≡ ok (record out { policy_registry = p }, flow)
unfolding run_mint load_state store_state
run_mint-left_out rt derive l signer a r p out flow left h =
    let (c, ec, h₁) = >>=-eq-ok (load_context rt l signer a) _ h in
    let (s, es, h₂) = >>=-eq-ok (load_state rt derive l a) _ h₁ in
    let (z, ez, h₃) = >>=-eq-ok (mint_energy rt c s r) _ h₂ in
    let done =
      ap (λ (w : Ledger × Flow). ok (record w.0 { policy_registry = p }, w.1))
        (ok-injective _ (out, flow) h₃) in
    rw (load_context-left_out rt l signer a p left) (rw ec (rw es (rw ez done)))

-- A mint that succeeds with the account of the policies left out succeeds in the same way
-- whatever policies are on the ledger, and leaves them as they are.
pub policies_are_left_out :
    (rt : Runtime) (derive : List Bytes → Pubkey) (l out : Ledger) (signer : Pubkey)
    (a : MintAccounts) (r : OracleReport) (p : Option PolicyRegistry) (flow : Flow)
    → a.policies ≡ false
    → run rt derive l signer (Call.mint_energy a r) ≡ ok (out, flow)
    → run rt derive (record l { policy_registry = p }) signer (Call.mint_energy a r)
      ≡ ok (record out { policy_registry = p }, flow)
unfolding run
policies_are_left_out rt derive l out signer a r p flow left h =
    run_mint-left_out rt derive l signer a r p out flow left h

-- A vote that succeeds with the configuration of the quorum left out succeeds in the same way
-- whatever configuration is on the ledger, and leaves it as it is.
pub threshold_is_left_out :
    (rt : Runtime) (derive : List Bytes → Pubkey) (l out : Ledger) (signer : Pubkey)
    (device_id oracle sysvar : Pubkey) (nonce : ℕ) (hash signature : Bytes)
    (k : Option OracleQuorumConfig) (flow : Flow)
    → run rt derive l signer (
        Call.quorum
          (QuorumCall.submit_oracle_attestation device_id oracle sysvar false nonce hash signature))
      ≡ ok (out, flow)
    → run rt derive
        (record l { quorum = record l.quorum { config = k } })
        signer
        (Call.quorum
          (QuorumCall.submit_oracle_attestation device_id oracle sysvar false nonce hash signature))
      ≡ ok (record out { quorum = record out.quorum { config = k } }, flow)
unfolding run run_quorum
threshold_is_left_out rt derive l out signer device_id oracle sysvar nonce hash signature k flow h =
    let at = attestation_key rt device_id nonce in
    let a = unwrap_or (l.quorum.attestations at) new_attestation in
    let vote = l.quorum.votes (vote_key rt at oracle) in
    let (q, eq, h₁) =
      >>=-eq-ok
        (run_quorum rt l.oracle_registry l.council.governance l.token_mint l.quorum signer
          (QuorumCall.submit_oracle_attestation device_id oracle sysvar false nonce hash signature))
        _ h in
    let (registry, er, h₂) = >>=-eq-ok (load l.oracle_registry) _ eq in
    let (stake, es, h₃) = >>=-eq-ok (load (l.quorum.stakes (stake_key rt oracle))) _ h₂ in
    let (z, ez, h₄) =
      >>=-eq-ok
        (submit_oracle_attestation rt a vote registry stake none at device_id oracle sysvar nonce
          hash signature)
        _ h₃ in
    let voted = ok-injective _ q h₄ in
    let stored = ok-injective _ (out, flow) h₁ in
    let same = ap (λ (x : Attestations). (record l { quorum = x }, no_flow)) voted ∙ stored in
    let done =
      ap (λ (w : Ledger × Flow). ok (record w.0 { quorum = record w.0.quorum { config = k } }, w.1))
        same in
    rw er (rw es (rw ez done))

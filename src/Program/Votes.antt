-- ===== src/Program/Votes.antt =====
-- Phases 10 to 12 of programs/enrg-mvp/src/lib.rs: the council, the commitments of contributions, and
-- the quorum of the oracles.
use enrg.Prelude.{ℕ, Bool, false, Option, none, some, List, [], ◌∷◌, unwrap_or, Result, ok, ◌>>=◌}
use enrg.Prelude.Int.{pos}
use enrg.Solana.{Pubkey, Bytes, default_key, codes, Runtime, TokenAccount}
use enrg.Messages.{to_bytes, u64_bytes}
use enrg.Oracle.{OracleRegistry}
use enrg.Vault.{TokenMint}
use enrg.Governance
use enrg.Governance.{GovernanceState, Addressed, proposal_address}
use enrg.Poi
use enrg.Poi.{PoiCommitment}
use enrg.Quorum
use enrg.Quorum.{OracleStake, new_attestation}
use enrg.Mint.{oracle_attest_seed}
use enrg.Program.Accounts.{Accounts, load, store, pda, Council, Attestations, Ledger, Flow}
use enrg.Program.Bootstrap.{src_mint}
use enrg.Program.Minting.{if_passed}

-- Phase 10. The caller of `create_proposal` may pass the proposal before.
pub data GovernanceCall : Type 0 where
  initialize_governance update_members : List Pubkey → GovernanceCall
  set_governance_authority : Pubkey → GovernanceCall
  create_proposal : Option Pubkey → ℕ → Bytes → ℕ → Pubkey → GovernanceCall
  vote : ℕ → Bool → GovernanceCall

abbrev pub addressed : Accounts Governance.Proposal → Option Pubkey → Result (Option Addressed)
addressed m none = ok none
addressed m (some key) = do p ← load (m key); ok (some (record { key = key; account = p }))

abbrev store_addressed :
    Accounts Governance.Proposal → Option Addressed → Accounts Governance.Proposal
store_addressed m none = m
store_addressed m (some a) = store m a.key a.account

abbrev with_governance : Council → GovernanceState → Council
with_governance c g = record c { governance = some g }

unfoldable pub run_council : Runtime → Council → Pubkey → GovernanceCall → Result Council
run_council rt c signer (initialize_governance members) = do
  g ← Governance.initialize_governance c.governance signer members
  ok (with_governance c g)
run_council rt c signer (update_members members) = do
  g ← load c.governance
  g' ← Governance.update_members g signer members
  ok (with_governance c g')
run_council rt c signer (set_governance_authority new_authority) = do
  g ← load c.governance
  g' ← Governance.set_governance_authority g signer new_authority
  ok (with_governance c g')
run_council rt c signer (create_proposal prev id title amount destination) =
    let at = proposal_address rt id in
    do
      g ← load c.governance
      p ← addressed c.proposals prev
      (g', (prev_after, proposal)) ←
          Governance.create_proposal rt g p (c.proposals at) signer id title amount destination
      ok (record {
        governance = some g';
        proposals = store (store_addressed c.proposals prev_after) at proposal;
      })
run_council rt c signer (vote proposal_id in_favour) =
    let at = proposal_address rt proposal_id in
    do
      g ← load c.governance
      p ← load (c.proposals at)
      (g', p') ← Governance.vote rt g p signer proposal_id in_favour
      ok (record { governance = some g'; proposals = store c.proposals at p' })

-- `governance_mint`, with the recipient's token account, which writes the vault too.
unfoldable pub run_execution : Runtime → Ledger → Pubkey → ℕ → TokenAccount → Result (Ledger × Flow)
run_execution rt l signer proposal_id destination =
    let at = proposal_address rt proposal_id in
    do
      g ← load l.council.governance
      p ← load (l.council.proposals at)
      vault ← load l.vault
      token_mint ← load l.token_mint
      (p', vault') ←
          Governance.governance_mint rt p vault (src_mint rt) token_mint.mint destination
            proposal_id
      ok (
        record l {
          vault = some vault';
          council = record l.council { proposals = store l.council.proposals at p' };
        },
        record { minted = p.amount_atomic; burned = 0 },
      )

-- Phase 11. The caller passes the sysvar.
unfoldable pub run_commit :
    Runtime
    → Accounts PoiCommitment
    → Pubkey
    → Pubkey
    → ℕ
    → Bytes
    → Bytes
    → Result (Accounts PoiCommitment)
run_commit rt m device_id instructions round digest signature =
    let at =
      rt.find_program_address (codes "poi-commit" ∷ u64_bytes round ∷ to_bytes device_id ∷ []) in
    do
      commitment ← Poi.commit_contribution rt (m at) device_id instructions round digest signature
      ok (store m at commitment)

-- Phase 12. A voter passes the device, the oracle and the sysvar, and may leave out the
-- configuration; a claim passes the attestation and two token accounts.
pub data QuorumCall : Type 0 where
  submit_oracle_attestation : Pubkey → Pubkey → Pubkey → Bool → ℕ → Bytes → Bytes → QuorumCall
  stake_oracle : ℕ → QuorumCall
  slash_oracle : Pubkey → QuorumCall
  init_oracle_quorum set_oracle_quorum : Bool → ℕ → ℕ → QuorumCall
  set_quorum_authority : Pubkey → QuorumCall
  claim_oracle_reward : Pubkey → TokenAccount → TokenAccount → QuorumCall

abbrev new_stake : OracleStake
new_stake = record { oracle = default_key; lamports = 0; joined_at = pos 0; slashed = false }

abbrev pub attestation_key : Runtime → Pubkey → ℕ → Pubkey
attestation_key rt device_id nonce =
    rt.find_program_address (oracle_attest_seed ∷ to_bytes device_id ∷ u64_bytes nonce ∷ [])

abbrev pub vote_key : Runtime → Pubkey → Pubkey → Pubkey
vote_key rt attestation oracle = pda rt (codes "oracle-vote") (attestation ∷ oracle ∷ [])

abbrev pub stake_key : Runtime → Pubkey → Pubkey
stake_key rt oracle = pda rt (codes "oracle-stake") (oracle ∷ [])

abbrev put_config : Attestations → Quorum.OracleQuorumConfig → Attestations
put_config q c = record q { config = some c }

module _ (rt : Runtime) (oracles : Option OracleRegistry) (governance : Option GovernanceState)
    (token_mint : Option TokenMint) (q : Attestations) (signer : Pubkey) where
  unfoldable pub run_quorum : QuorumCall → Result Attestations
  run_quorum (submit_oracle_attestation device_id oracle sysvar with_config nonce hash signature) =
      let at = attestation_key rt device_id nonce in
      let vote_at = vote_key rt at oracle in
      do
        registry ← load oracles
        stake ← load (q.stakes (stake_key rt oracle))
        config ← if_passed with_config q.config
        let attestation = unwrap_or (q.attestations at) new_attestation
        (voted, ballot) ←
            Quorum.submit_oracle_attestation rt attestation (q.votes vote_at) registry stake config
              at device_id oracle sysvar nonce hash signature
        ok (record q {
          attestations = store q.attestations at voted;
          votes = store q.votes vote_at ballot;
        })
  run_quorum (stake_oracle lamports) =
      let at = stake_key rt signer in
      do
        registry ← load oracles
        stake ←
            Quorum.stake_oracle rt (unwrap_or (q.stakes at) new_stake) registry signer at lamports
        ok (record q { stakes = store q.stakes at stake })
  run_quorum (slash_oracle oracle) =
      let at = stake_key rt oracle in
      do
        stake ← load (q.stakes at)
        g ← load governance
        slashed ← Quorum.slash_oracle rt stake g.authority signer at (pda rt (codes "vault") [])
        ok (record q { stakes = store q.stakes at slashed })
  run_quorum (init_oracle_quorum required threshold reward) = do
    registry ← load oracles
    config ← Quorum.init_oracle_quorum q.config registry signer required threshold reward
    ok (put_config q config)
  run_quorum (set_oracle_quorum required threshold reward) = do
    config ← load q.config
    config' ← Quorum.set_oracle_quorum config signer required threshold reward
    ok (put_config q config')
  run_quorum (set_quorum_authority new_authority) = do
    config ← load q.config
    config' ← Quorum.set_quorum_authority config signer new_authority
    ok (put_config q config')
  run_quorum (claim_oracle_reward attestation_at staking_account oracle_ata) =
      let vote_at = vote_key rt attestation_at signer in
      do
        ballot ← load (q.votes vote_at)
        attestation ← load (q.attestations attestation_at)
        config ← load q.config
        t ← load token_mint
        paid ←
            Quorum.claim_oracle_reward rt
              (record {
                signer = signer;
                attestation_key = attestation_at;
                mint_key = src_mint rt;
                registered_mint = t.mint;
                registered_staking = t.staking_account;
                staking_account = staking_account;
                oracle_ata = oracle_ata;
              })
              ballot attestation config
        ok (record q { votes = store q.votes vote_at paid })

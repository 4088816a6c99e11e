-- ===== src/Program/Guards.antt =====
-- What the handlers of the quorum keep of its configuration and its attestations.
use mathlib.Core.Path.{subst}
use enrg.Prelude.{
  ℕ, ◌≤◌, ◌≡◌, refl, arith, Bool, true, false, Option, none, some, unwrap_or, ok, WhenOn, inl,
}
use enrg.Prelude.Int.{ℤ}
use enrg.Solana.{Pubkey, Bytes, Runtime}
use enrg.Vault.{TokenMint}
use enrg.Oracle.{OracleRegistry}
use enrg.Governance.{GovernanceState}
use enrg.Quorum.{
  OracleQuorumConfig, OracleAttestation, OracleVote, OracleStake, new_attestation, apply_vote,
  threshold_of, finalize, submit_oracle_attestation, init_oracle_quorum, set_oracle_quorum,
  set_quorum_authority,
}
use enrg.Quorum.Tally.{submit_oracle_attestation_sound}
use enrg.Quorum.Deposits as Deposits
use enrg.Program.Accounts.{Accounts, Attestations, load}
use enrg.Program.Minting.{if_passed}
use enrg.Program.Votes.{QuorumCall, attestation_key, vote_key, stake_key, run_quorum}
use enrg.Program.Runs.{Ends, fails, gives, Ends->>=, Ends-follow, Holds, AllOf, AllOf-store}
use enrg.Program.Records.{load-some}

-- A finalized attestation has at least two votes for its hash.
abbrev pub IsBacked : OracleAttestation → Type 0
IsBacked a = WhenOn a.finalized (2 ≤ a.votes)

apply_vote-IsBacked :
    (a : OracleAttestation) (device : Pubkey) (nonce : ℕ) (hash : Bytes) (now : ℤ)
    → IsBacked a
    → IsBacked (apply_vote a device nonce hash now).0
unfolding apply_vote
apply_vote-IsBacked a device nonce hash now b = ground arith

finalize-IsBacked : (a : OracleAttestation) (k : ℕ) → 2 ≤ k → IsBacked a → IsBacked (finalize a k)
finalize-IsBacked a k le b = ground arith

threshold_least : (o : Option OracleQuorumConfig) → Deposits.InRange o → 2 ≤ threshold_of o
threshold_least none r = omega arith
threshold_least (some c) (r, _) = r

if_passed-InRange :
    (with : Bool) (o : Option OracleQuorumConfig)
    → Deposits.InRange o
    → Ends Deposits.InRange (if_passed with o)
if_passed-InRange false o r = gives none tt
if_passed-InRange true none r = fails _
if_passed-InRange true (some c) r = gives (some c) r

found_or_new :
    (o : Option OracleAttestation) → Holds IsBacked o → IsBacked (unwrap_or o new_attestation)
found_or_new none h = inl refl
found_or_new (some a) h = h

-- The threshold of the quorum is in its range, and every attestation is backed.
pub record IsGuarded (o : Option OracleQuorumConfig) (m : Accounts OracleAttestation) : Type 0 where
  pub config : Deposits.InRange o
  pub attestations : AllOf IsBacked m

abbrev pub Guards : Attestations → Type 0
Guards q = IsGuarded q.config q.attestations

submit_oracle_attestation-IsBacked :
    (rt : Runtime) (a : OracleAttestation) (existing : Option OracleVote)
    (registry : OracleRegistry) (stake : OracleStake) (config : Option OracleQuorumConfig)
    (key device oracle instructions : Pubkey) (nonce : ℕ) (hash signature : Bytes)
    (z : OracleAttestation × OracleVote)
    → Deposits.InRange config
    → IsBacked a
    → submit_oracle_attestation rt a existing registry stake config key device oracle instructions
        nonce hash signature
      ≡ ok z
    → IsBacked z.0
submit_oracle_attestation-IsBacked rt a existing registry stake config key device oracle
      instructions nonce hash signature (out, v) r b h =
    let (_, _, _, _, _, same) =
      submit_oracle_attestation_sound rt a existing registry stake config key device oracle
        instructions nonce hash signature out v h in
    let voted = apply_vote-IsBacked a device nonce hash rt.now b in
    subst IsBacked same (finalize-IsBacked _ (threshold_of config) (threshold_least config r) voted)

module _ (rt : Runtime) (oracles : Option OracleRegistry) (governance : Option GovernanceState)
    (token_mint : Option TokenMint) (q : Attestations) (signer : Pubkey) where
  pub run_quorum-IsGuarded :
      (call : QuorumCall)
      → Guards q
      → Ends Guards (run_quorum rt oracles governance token_mint q signer call)
  unfolding run_quorum
  run_quorum-IsGuarded
        (QuorumCall.submit_oracle_attestation device oracle sysvar with nonce hash signature) g =
      let at = attestation_key rt device nonce in
      let a = unwrap_or (q.attestations at) new_attestation in
      let vote = q.votes (vote_key rt at oracle) in
      Ends->>= (load oracles) _ (λ r _. Ends->>= (load (q.stakes (stake_key rt oracle))) _ (λ s _.
        Ends-follow (if_passed with q.config) _ (if_passed-InRange with q.config g.config)
          (λ c ranged.
            Ends->>=
              (submit_oracle_attestation rt a vote r s c at device oracle sysvar nonce hash
                signature)
              _
              (λ z e.
                let old = found_or_new (q.attestations at) (g.attestations.holds at) in
                let backed =
                  submit_oracle_attestation-IsBacked rt a vote r s c at device oracle sysvar nonce
                    hash signature z ranged old e in
                gives _ (record {
                  config = g.config;
                  attestations = AllOf-store q.attestations at z.0 g.attestations backed;
                })))))
  run_quorum-IsGuarded (QuorumCall.init_oracle_quorum required threshold reward) g =
      Ends->>= (load oracles) _ (λ r _.
        Ends->>= (init_oracle_quorum q.config r signer required threshold reward) _ (λ c e.
          let call = Deposits.inits q.config r signer required threshold reward c e in
          gives _ (record {
            config = Deposits.⟶-InRange q.config (some c) call g.config;
            attestations = g.attestations;
          })))
  run_quorum-IsGuarded (QuorumCall.set_oracle_quorum required threshold reward) g =
      Ends-follow (load q.config) _ (load-some q.config) (λ c found.
        Ends->>= (set_oracle_quorum c signer required threshold reward) _ (λ c' e.
          let call = Deposits.sets c signer required threshold reward c' e in
          gives _ (record {
            config =
                Deposits.⟶-InRange (some c) (some c') call (subst Deposits.InRange found g.config);
            attestations = g.attestations;
          })))
  run_quorum-IsGuarded (QuorumCall.set_quorum_authority k) g =
      Ends-follow (load q.config) _ (load-some q.config) (λ c found.
        Ends->>= (set_quorum_authority c signer k) _ (λ c' e.
          let call = Deposits.hands_over c signer k c' e in
          gives _ (record {
            config =
                Deposits.⟶-InRange (some c) (some c') call (subst Deposits.InRange found g.config);
            attestations = g.attestations;
          })))
  run_quorum-IsGuarded _ g = search (Ends->>=, gives) depth 14

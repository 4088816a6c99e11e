-- ===== src/Quorum/Deposits.antt =====
-- The deposits, the configuration and the rewards of the oracle quorum.
use enrg.Prelude.{ℕ, ◌≤◌, ◌<◌, ◌≡◌, ◌≢◌, Bool, true, false, Option, none, some, ok, arith}
use enrg.Solana.{Pubkey, Bytes, Runtime, token_transfer}
use enrg.Oracle.{OracleRegistry, max_oracles}
use enrg.Quorum.Tally.{submit_oracle_attestation_sound}
use enrg.Quorum.{
  OracleStake, OracleVote, OracleAttestation, OracleQuorumConfig, RewardAccounts, slash_oracle,
  submit_oracle_attestation, init_oracle_quorum, set_oracle_quorum, set_quorum_authority,
  claim_oracle_reward,
}

-- One successful call on the configuration.
infix 40 ◌⟶◌ ◌⟶*◌
pub data ◌⟶◌ : Option OracleQuorumConfig → Option OracleQuorumConfig → Type 0 where
  inits :
      (old : Option OracleQuorumConfig) (registry : OracleRegistry) (signer : Pubkey)
      (required : Bool) (threshold reward : ℕ) (new : OracleQuorumConfig)
      → init_oracle_quorum old registry signer required threshold reward ≡ ok new
      → old ⟶ some new
  sets :
      (old : OracleQuorumConfig) (signer : Pubkey) (required : Bool) (threshold reward : ℕ)
      (new : OracleQuorumConfig)
      → set_oracle_quorum old signer required threshold reward ≡ ok new
      → some old ⟶ some new
  hands_over :
      (old : OracleQuorumConfig) (signer new_authority : Pubkey) (new : OracleQuorumConfig)
      → set_quorum_authority old signer new_authority ≡ ok new
      → some old ⟶ some new

pub data ◌⟶*◌ : Option OracleQuorumConfig → Option OracleQuorumConfig → Type 0 where
  stays : {o : Option OracleQuorumConfig} → o ⟶* o
  steps : {a b c : Option OracleQuorumConfig} → a ⟶* b → b ⟶ c → a ⟶* c

abbrev pub InRange : Option OracleQuorumConfig → Type 0
InRange none = Unit
InRange (some c) = (2 ≤ c.threshold) × (c.threshold ≤ max_oracles)

pub ⟶-InRange : (a b : Option OracleQuorumConfig) → a ⟶ b → InRange a → InRange b
unfolding init_oracle_quorum set_oracle_quorum set_quorum_authority
⟶-InRange _ _ (inits none registry signer required threshold reward new h) r = ground arith
⟶-InRange _ _ (inits (some p) registry signer required threshold reward new h) r =
    absurd (ground arith)
⟶-InRange _ _ (sets old signer required threshold reward new h) r = ground arith
⟶-InRange _ _ (hands_over old signer new_authority new h) r = ground arith

-- After any successful calls on the configuration from an empty address, the threshold, if there
-- is one, lies between two and a hundred.
pub threshold-InRange : (b : Option OracleQuorumConfig) → none ⟶* b → InRange b
threshold-InRange b stays = tt
threshold-InRange c (steps {b = b} before last) = ⟶-InRange b c last (threshold-InRange b before)

slashed :
    (rt : Runtime) (s out : OracleStake) (g signer key vault : Pubkey)
    → slash_oracle rt s g signer key vault ≡ ok out
    → (0 < s.lamports) × (out.lamports ≡ 0) × (out.slashed ≡ true)
unfolding slash_oracle
slashed rt s out g signer key vault h = ground arith

slash_refused :
    (rt : Runtime) (s out : OracleStake) (g signer key vault : Pubkey)
    → s.slashed ≡ true
    → slash_oracle rt s g signer key vault ≢ ok out
unfolding slash_oracle
slash_refused rt s out g signer key vault flag h = ground arith

submit_refused :
    (rt : Runtime) (a : OracleAttestation) (e : Option OracleVote) (r : OracleRegistry)
    (s : OracleStake) (c : Option OracleQuorumConfig) (k d o i : Pubkey) (n : ℕ) (hash sig : Bytes)
    (result : OracleAttestation × OracleVote)
    → s.slashed ≡ true
    → submit_oracle_attestation rt a e r s c k d o i n hash sig ≢ ok result
submit_refused rt a e r s c k d o i n hash sig (out, v) flag h =
    let (_, _, unslashed, _, _, _) =
      submit_oracle_attestation_sound rt a e r s c k d o i n hash sig out v h in
    absurd (ground arith)

-- A successful slashing was of a deposit above zero and leaves it at zero; no vote under the
-- resulting deposit succeeds, and no slashing of it by the same accounts succeeds.
pub slashed_is_out :
    (rt rt' : Runtime) (s out : OracleStake) (governance signer key vault : Pubkey)
    (a : OracleAttestation) (e : Option OracleVote) (r : OracleRegistry)
    (c : Option OracleQuorumConfig) (k d o i : Pubkey) (n : ℕ) (hash sig : Bytes)
    (result : OracleAttestation × OracleVote) (later : OracleStake)
    → slash_oracle rt s governance signer key vault ≡ ok out
    → (0 < s.lamports)
      × (out.lamports ≡ 0)
      × (submit_oracle_attestation rt' a e r out c k d o i n hash sig ≢ ok result)
      × (slash_oracle rt' out governance signer key vault ≢ ok later)
slashed_is_out rt rt' s out governance signer key vault a e r c k d o i n hash sig result later h =
    let (some_deposit, empty, flag) = slashed rt s out governance signer key vault h in
    (
      some_deposit,
      empty,
      submit_refused rt' a e r out c k d o i n hash sig result flag,
      slash_refused rt' out later governance signer key vault flag,
    )

-- A reward is paid only when the attestation is finalized and the vote names the attestation's
-- account and was not paid yet; the transfer of the reward to the oracle's account succeeded; and
-- no second claim on the resulting vote succeeds.
pub reward_is_paid_once :
    (rt rt' : Runtime) (c c' : RewardAccounts) (vote out : OracleVote) (a a' : OracleAttestation)
    (config config' : OracleQuorumConfig) (again : OracleVote)
    → claim_oracle_reward rt c vote a config ≡ ok out
    → (a.finalized ≡ true)
      × (vote.attestation ≡ c.attestation_key)
      × (vote.reward_claimed ≡ false)
      × (rt.invoke (token_transfer c.staking_account.key c.oracle_ata.key config.reward_per_vote)
          ≡ ok tt)
      × (claim_oracle_reward rt' c' out a' config' ≢ ok again)
unfolding claim_oracle_reward
reward_is_paid_once rt rt' c c' vote out a a' config config' again h = ground arith

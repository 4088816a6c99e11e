-- ===== src/Quorum.antt =====
-- programs/enrg-mvp/src/state/oracle_attestation.rs and instructions/oracle_quorum.rs: the votes of the
-- oracles on a proof, and the handlers around them. An account stands for the one at the address
-- that the handler's seeds derive, `none` for an address that holds nothing yet.
pub mod Tally
pub mod Deposits
mod Tests
use enrg.Prelude.{
  ℕ, ◌+◌, Bool, true, false, not, ◌&&◌, Option, none, some, List, [], ◌∷◌, ltb, leb, ◌==◌,
  if◌then◌else◌, map_or, checked_add, saturating_add, u8_max, u64_max, bytes_eq, Result, ok, err,
  framework, ErrorCode, require, ok_or, ◌>>=◌, ◌>>◌,
}
use enrg.Prelude.Int.{ℤ, pos}
use enrg.Solana.{
  Pubkey, default_key, Bytes, zero_hash, all_zero, vacant, Runtime, TokenAccount, system_transfer,
  token_transfer,
}
use enrg.Messages.{to_bytes, oracle_attest_message}
use enrg.Ed25519.{verify_ed25519_signature}
use enrg.Oracle.{OracleRegistry, trusts, max_oracles}

pub record OracleAttestation : Type 0 where
  pub device_id : Pubkey
  pub nonce : ℕ
  pub proof_hash : Bytes
  pub votes : ℕ
  pub finalized : Bool
  pub conflict : Bool
  pub created_at : ℤ

pub data VoteOutcome : Type 0 where
  canonical agreed conflicting : VoteOutcome

unfoldable pub apply_vote :
    OracleAttestation → Pubkey → ℕ → Bytes → ℤ → OracleAttestation × VoteOutcome
apply_vote a device_id nonce proof_hash now =
    if a.votes == 0
    then (
      record a {
        device_id = device_id;
        nonce = nonce;
        proof_hash = proof_hash;
        created_at = now;
        votes = 1;
      },
      canonical,
    )
    else if bytes_eq a.proof_hash proof_hash
    then (record a { votes = saturating_add u8_max a.votes 1 }, agreed)
    else (record a { conflict = true }, conflicting)

abbrev pub is_finalized : OracleAttestation → ℕ → Bool
is_finalized a threshold = leb threshold a.votes

pub record OracleVote : Type 0 where
  pub oracle : Pubkey
  pub attestation : Pubkey
  pub proof_hash : Bytes
  pub voted_at : ℤ
  pub reward_claimed : Bool

pub record OracleStake : Type 0 where
  pub oracle : Pubkey
  pub lamports : ℕ
  pub joined_at : ℤ
  pub slashed : Bool

pub record OracleQuorumConfig : Type 0 where
  pub authority : Pubkey
  pub required : Bool
  pub threshold : ℕ
  pub reward_per_vote : ℕ

abbrev pub oracle_attestation_threshold : ℕ
oracle_attestation_threshold = 2

-- The account that `init_if_needed` creates: every byte is zero.
abbrev pub new_attestation : OracleAttestation
new_attestation = record {
  device_id = default_key;
  nonce = 0;
  proof_hash = zero_hash;
  votes = 0;
  finalized = false;
  conflict = false;
  created_at = pos 0;
}

abbrev pub threshold_of : Option OracleQuorumConfig → ℕ
threshold_of config = map_or config oracle_attestation_threshold (λ c. c.threshold)

-- The attestation after a vote, with the flag that a reached quorum sets.
abbrev pub finalize : OracleAttestation → ℕ → OracleAttestation
finalize a threshold = if is_finalized a threshold then record a { finalized = true } else a

unfoldable pub submit_oracle_attestation :
    Runtime
    → OracleAttestation
    → Option OracleVote
    → OracleRegistry
    → OracleStake
    → Option OracleQuorumConfig
    → Pubkey
    → Pubkey
    → Pubkey
    → Pubkey
    → ℕ
    → Bytes
    → Bytes
    → Result (OracleAttestation × OracleVote)
submit_oracle_attestation rt attestation existing registry stake config attestation_key device_id
      oracle instructions nonce proof_hash signature =
    do
      vacant existing
      require (trusts registry oracle) ErrorCode.untrusted_oracle
      require (not stake.slashed) ErrorCode.unauthorized
      require (not (device_id == default_key)) ErrorCode.invalid_parameter
      require (not (all_zero proof_hash)) ErrorCode.invalid_leaf_hash
      verify_ed25519_signature rt signature (to_bytes oracle)
          (oracle_attest_message device_id nonce proof_hash) instructions
      let (voted, _) = apply_vote attestation device_id nonce proof_hash rt.now
      ok (
        finalize voted (threshold_of config),
        record {
          oracle = oracle;
          attestation = attestation_key;
          proof_hash = proof_hash;
          voted_at = rt.now;
          reward_claimed = false;
        },
      )

-- A new stake account is zero; the first deposit writes the oracle into it.
abbrev pub joined : Runtime → OracleStake → Pubkey → OracleStake
joined rt stake signer =
    if stake.oracle == default_key
    then record stake { oracle = signer; joined_at = rt.now }
    else stake

unfoldable pub stake_oracle :
    Runtime → OracleStake → OracleRegistry → Pubkey → Pubkey → ℕ → Result OracleStake
stake_oracle rt stake registry signer stake_key lamports = do
  require (trusts registry signer) ErrorCode.untrusted_oracle
  require (leb 1_000_000 lamports) ErrorCode.insufficient_stake
  total ← ok_or (checked_add u64_max stake.lamports lamports) ErrorCode.arithmetic_overflow
  rt.invoke (system_transfer signer stake_key lamports)
  ok (record (joined rt stake signer) { lamports = total })

unfoldable pub slash_oracle :
    Runtime → OracleStake → Pubkey → Pubkey → Pubkey → Pubkey → Result OracleStake
slash_oracle rt stake governance_authority signer stake_key vault_key = do
  require (not stake.slashed) ErrorCode.unauthorized
  require (governance_authority == signer) ErrorCode.not_governance_authority
  require (ltb 0 stake.lamports) ErrorCode.nothing_to_claim
  rt.invoke (system_transfer stake_key vault_key stake.lamports)
  ok (record stake { lamports = 0; slashed = true })

abbrev pub check_threshold : ℕ → Result (Unit {0})
check_threshold threshold =
    require (leb 2 threshold && leb threshold max_oracles) ErrorCode.invalid_quorum_threshold

unfoldable pub init_oracle_quorum :
    Option OracleQuorumConfig → OracleRegistry → Pubkey → Bool → ℕ → ℕ → Result OracleQuorumConfig
init_oracle_quorum (some _) registry signer required threshold reward = err (framework 0)
init_oracle_quorum none registry signer required threshold reward = do
  require (registry.authority == signer) ErrorCode.not_oracle_authority
  check_threshold threshold
  ok (record {
    authority = signer;
    required = required;
    threshold = threshold;
    reward_per_vote = reward;
  })

unfoldable pub set_oracle_quorum :
    OracleQuorumConfig → Pubkey → Bool → ℕ → ℕ → Result OracleQuorumConfig
set_oracle_quorum config signer required threshold reward = do
  require (config.authority == signer) ErrorCode.not_quorum_authority
  check_threshold threshold
  ok (record config { required = required; threshold = threshold; reward_per_vote = reward })

unfoldable pub set_quorum_authority :
    OracleQuorumConfig → Pubkey → Pubkey → Result OracleQuorumConfig
set_quorum_authority config signer new_authority = do
  require (config.authority == signer) ErrorCode.not_quorum_authority
  require (not (new_authority == default_key)) ErrorCode.invalid_parameter
  ok (record config { authority = new_authority })

-- The keys that a claim's constraints compare.
pub record RewardAccounts : Type 0 where
  pub signer : Pubkey
  pub attestation_key : Pubkey
  pub mint_key : Pubkey
  pub registered_mint : Pubkey
  pub registered_staking : Pubkey
  pub staking_account : TokenAccount
  pub oracle_ata : TokenAccount

abbrev pub check_reward_accounts : RewardAccounts → Result (Unit {0})
check_reward_accounts c = do
  require (c.staking_account.key == c.registered_staking) ErrorCode.invalid_parameter
  require (c.staking_account.mint == c.mint_key) ErrorCode.invalid_parameter
  require (c.oracle_ata.mint == c.mint_key) ErrorCode.invalid_parameter
  require (c.oracle_ata.owner == c.signer) ErrorCode.unauthorized_token_account_owner
  require (c.mint_key == c.registered_mint) ErrorCode.invalid_parameter

unfoldable pub claim_oracle_reward :
    Runtime
    → RewardAccounts
    → OracleVote
    → OracleAttestation
    → OracleQuorumConfig
    → Result OracleVote
claim_oracle_reward rt c vote attestation config = do
  check_reward_accounts c
  require (vote.attestation == c.attestation_key) ErrorCode.invalid_parameter
  require attestation.finalized ErrorCode.attestation_not_finalized
  require (not vote.reward_claimed) ErrorCode.already_claimed
  require (ltb 0 config.reward_per_vote) ErrorCode.nothing_to_claim
  rt.invoke (token_transfer c.staking_account.key c.oracle_ata.key config.reward_per_vote)
  ok (record vote { reward_claimed = true })

-- ===== src/Quorum/Tests.antt =====
-- Two oracles vote for a proof under a threshold of two; a deposit is slashed; a reward is claimed.
use enrg.Prelude.{
  ℕ, ◌≤◌, ◌≡◌, ◌≢◌, refl, true, false, none, [], ◌∷◌, ok, arith, distinct, contains, bytes_eq,
}
use enrg.Prelude.Int.{pos}
use enrg.Constants.{instructions_sysvar_id}
use enrg.Solana.{Bytes, Runtime, token_transfer}
use enrg.Solana.{all_zero}
use enrg.Messages.{le_bytes, to_bytes, u64_bytes, oracle_attest_message}
use enrg.Ed25519.{
  verify_ed25519_instruction_data, is_verification, scan_back, verify_ed25519_signature,
}
use enrg.Ed25519.Sound.{CarriedBy, build_data}
use enrg.Oracle.{trusts}
use enrg.Samples.{repeat, signed_by, a_runtime, a_registry, a_stake, a_config}
use enrg.Quorum.{
  OracleAttestation, OracleVote, OracleStake, RewardAccounts, new_attestation, apply_vote, finalize,
  slash_oracle, submit_oracle_attestation, init_oracle_quorum, claim_oracle_reward,
}
use enrg.Quorum.Tally.{
  Ballot, vote_of, agreeing, new_ballot, votes_for, stays, steps, IsTally, ◌⊢◌⟶*◌, stored,
  submit_oracle_attestation_sound, attestation-IsTally, finalized_has_quorum,
}
use enrg.Quorum.Deposits.{reward_is_paid_once}

abbrev a_hash : Bytes
a_hash = repeat 32 8

abbrev voting : ℕ → Runtime
voting oracle = record a_runtime {
  instruction_back = λ n. signed_by oracle (repeat 64 oracle) (oracle_attest_message 3 1 a_hash);
}

abbrev a_vote : ℕ → OracleVote
a_vote oracle = record {
  oracle = oracle;
  attestation = 50;
  proof_hash = a_hash;
  voted_at = pos 1_000_000;
  reward_claimed = false;
}

abbrev once : OracleAttestation
once = record {
  device_id = 3;
  nonce = 1;
  proof_hash = a_hash;
  votes = 1;
  finalized = false;
  conflict = false;
  created_at = pos 1_000_000;
}

abbrev twice : OracleAttestation
twice = record once { votes = 2; finalized = true }

abbrev ballot_once : Ballot
ballot_once = record { attestation = once; votes = a_vote 4 ∷ [] }

abbrev ballot_twice : Ballot
ballot_twice = record { attestation = twice; votes = a_vote 5 ∷ a_vote 4 ∷ [] }

first_vote :
    submit_oracle_attestation
      (voting 4)
      new_attestation
      (vote_of 4 [])
      a_registry
      a_stake
      none
      50
      3
      4
      instructions_sysvar_id
      1
      a_hash
      (repeat 64 4)
    ≡ ok (once, a_vote 4)
unfolding submit_oracle_attestation vote_of apply_vote all_zero contains bytes_eq
    verify_ed25519_signature scan_back is_verification verify_ed25519_instruction_data build_data
    oracle_attest_message to_bytes u64_bytes le_bytes
first_vote = refl

second_vote :
    submit_oracle_attestation
      (voting 5)
      once
      (vote_of 5 (a_vote 4 ∷ []))
      a_registry
      a_stake
      none
      50
      3
      5
      instructions_sysvar_id
      1
      a_hash
      (repeat 64 5)
    ≡ ok (twice, a_vote 5)
unfolding submit_oracle_attestation vote_of apply_vote all_zero contains bytes_eq
    verify_ed25519_signature scan_back is_verification verify_ed25519_instruction_data build_data
    oracle_attest_message to_bytes u64_bytes le_bytes
second_vote = refl

both_votes : 2 ⊢ new_ballot ⟶* ballot_twice
both_votes =
    steps
      (steps stays (
        votes_for (voting 4) new_ballot a_registry a_stake none 50 3 4 instructions_sysvar_id 1
          a_hash (repeat 64 4) once (a_vote 4) (omega arith) first_vote))
      (votes_for (voting 5) ballot_once a_registry a_stake none 50 3 5 instructions_sysvar_id 1
        a_hash (repeat 64 5) twice (a_vote 5) (omega arith) second_vote)

finalized_has_quorum_example :
    (2 ≤ agreeing a_hash (a_vote 5 ∷ a_vote 4 ∷ [])) × (distinct (5 ∷ 4 ∷ []) ≡ true)
finalized_has_quorum_example = finalized_has_quorum 2 ballot_twice both_votes refl

attestation-IsTally_example : IsTally 2 ballot_twice
attestation-IsTally_example = attestation-IsTally 2 ballot_twice both_votes

submit_oracle_attestation_sound_example :
    (vote_of 5 (a_vote 4 ∷ []) ≡ none)
    × (trusts a_registry 5 ≡ true)
    × (false ≡ false)
    × CarriedBy
        (voting 5).instruction_back
        9
        (repeat 64 5)
        (to_bytes 5)
        (oracle_attest_message 3 1 a_hash)
    × (stored (voting 5) 50 5 a_hash ≡ a_vote 5)
    × (finalize (apply_vote once 3 1 a_hash (pos 1_000_000)).0 2 ≡ twice)
submit_oracle_attestation_sound_example =
    submit_oracle_attestation_sound (voting 5) once (vote_of 5 (a_vote 4 ∷ [])) a_registry a_stake
      none 50 3 5 instructions_sysvar_id 1 a_hash (repeat 64 5) twice (a_vote 5) second_vote

configures :
    init_oracle_quorum none a_registry 1 true 2 100 ≡ ok (record a_config { required = true })
unfolding init_oracle_quorum
configures = refl

abbrev slashed_stake : OracleStake
slashed_stake = record a_stake { lamports = 0; slashed = true }

slashes : slash_oracle a_runtime a_stake 1 1 60 61 ≡ ok slashed_stake
unfolding slash_oracle
slashes = refl

abbrev reward_accounts : RewardAccounts
reward_accounts = record {
  signer = 5;
  attestation_key = 50;
  mint_key = 20;
  registered_mint = 20;
  registered_staking = 22;
  staking_account = record { key = 22; mint = 20; owner = 70; amount = 1_000 };
  oracle_ata = record { key = 33; mint = 20; owner = 5; amount = 0 };
}

abbrev paid_vote : OracleVote
paid_vote = record (a_vote 5) { reward_claimed = true }

claims : claim_oracle_reward a_runtime reward_accounts (a_vote 5) twice a_config ≡ ok paid_vote
unfolding claim_oracle_reward
claims = refl

reward_is_paid_once_example :
    (true ≡ true)
    × ((a_vote 5).attestation ≡ reward_accounts.attestation_key)
    × (false ≡ false)
    × (a_runtime.invoke (token_transfer 22 33 100) ≡ ok tt)
    × (claim_oracle_reward a_runtime reward_accounts paid_vote twice a_config ≢ ok paid_vote)
reward_is_paid_once_example =
    reward_is_paid_once a_runtime a_runtime reward_accounts reward_accounts (a_vote 5) paid_vote
      twice twice a_config a_config paid_vote claims

-- ===== src/Program/MintTests.antt =====
-- A mint and a vote on a ledger of one device, and the theorems at them.
use enrg.Prelude.{◌≡◌, ◌≢◌, refl, arith, true, false, Option, none, some, ok}
use enrg.Constants.{instructions_sysvar_id, enrg_profile_program_id}
use enrg.Solana.{Bytes}
use enrg.Samples.{
  a_runtime, a_report, a_producer, a_vault, a_profile, a_registry, a_config, a_token_mint,
  a_token_account, minted,
}
use enrg.Program.Accounts.{Ledger, Flow, no_flow, genesis, store}
use enrg.Program.Minting.{MintAccounts, run_mint, load_context, load_state, store_state}
use enrg.Program.{Call, run}
use enrg.Program.Runs.{Run, stays, steps}
use enrg.Program.History.{Anything, records-AreKept}
use enrg.Program.Records.{AreKept}
use enrg.Program.Replay.{report_is_minted_once, revoked_never_mints}
use enrg.Program.LeftOut.{policies_are_left_out, threshold_is_left_out}
use enrg.Program.Votes.{QuorumCall, run_quorum}
use enrg.Quorum.{OracleQuorumConfig, apply_vote, submit_oracle_attestation}
use enrg.Policy.{PolicyRegistry, defaults, evaluate_preamble, evaluate_reward}
use enrg.Messages.{
  le_bytes, to_bytes, u64_bytes, i64_bytes, device_message_to_sign, oracle_message_to_sign,
  oracle_attest_message,
}
use enrg.Ed25519.{
  verify_ed25519_instruction_data, is_verification, scan_back, verify_ed25519_signature,
}
use enrg.Ed25519.Sound.{build_data}
use enrg.Device.{can_mint, roll_month, effective_month_energy, allows_increment, monthly_limit_wh}
use enrg.Validation.{verify_nonce, verify_timestamp_with_skew, verify_device_clock}
use enrg.Profile.{
  decayed, update_energy_window, record_production_inner, record_production_authorized,
}
use enrg.Math.{
  fp_mul, exp_loop, exp_fp, alternating_loop, series_loop, ln_1p_fp, log10_1p_fp, emission_share,
  emission_difficulty, energy_per_src, device_difficulty_multiplier, effective_energy_per_src,
  reward_for_energy, calculate_reward_dynamic, update_window, update_energy_window_u128,
}
use enrg.Mint.{
  check_accounts, authenticate, quorum_gate, preamble, credit_producer, split_reward, pay_out,
  credit_vault, credit_reputation, credit_pool, roll_network, reward_of, approve_reward, admit,
  disburse, settle, mint_energy,
}
use enrg.Prelude.{contains, bytes_eq}
use enrg.Prelude.Int.{pos, ◌+ℤ◌, ◌-ℤ◌}
use enrg.Solana.{Runtime, all_zero}
use enrg.Samples.{repeat, signed_by, a_stake}
use enrg.Program.Tests.{derive}

-- A ledger of one device, with what its mint needs.
abbrev a_ledger : Ledger
a_ledger = record genesis {
  vault = some a_vault;
  token_mint = some (record a_token_mint { mint = 7 });
  oracle_registry = some a_registry;
  devices = record genesis.devices {
    producers = store (λ k. none) 40 a_producer;
    profiles = store (λ k. none) 7 a_profile;
  };
  quorum = record genesis.quorum { config = some a_config; stakes = store (λ k. none) 7 a_stake };
}

abbrev mint_accounts : MintAccounts
mint_accounts = record {
  producer = 40;
  producer_owner = 11;
  user_token_account = record a_token_account { mint = 7 };
  buyback_account = 21;
  staking_account = 22;
  dao_account = 23;
  emergency_account = 24;
  instructions = instructions_sysvar_id;
  profile_program = enrg_profile_program_id;
  reputation = false;
  pool = none;
  pool_share = none;
  policies = false;
  attestation = none;
}

abbrev mint_call : Call
mint_call = Call.mint_energy mint_accounts a_report

abbrev after_mint : Ledger
after_mint = record a_ledger {
  vault = some minted.vault;
  devices = record a_ledger.devices {
    producers = store a_ledger.devices.producers 40 minted.producer;
    profiles = store a_ledger.devices.profiles 7 minted.profile;
  };
}

abbrev mint_flow : Flow
mint_flow = record { minted = 50_000_000; burned = 0 }

mint_runs : run a_runtime derive a_ledger 5 mint_call ≡ ok (after_mint, mint_flow)
unfolding run run_mint load_context load_state store_state mint_energy admit check_accounts
    authenticate quorum_gate preamble roll_month can_mint effective_month_energy allows_increment
    monthly_limit_wh verify_nonce verify_timestamp_with_skew verify_device_clock evaluate_preamble
    verify_ed25519_signature scan_back is_verification verify_ed25519_instruction_data build_data
    device_message_to_sign oracle_message_to_sign to_bytes u64_bytes i64_bytes le_bytes contains
    ◌+ℤ◌ ◌-ℤ◌ settle disburse roll_network update_energy_window_u128 update_window
    record_production_authorized record_production_inner update_energy_window decayed
    credit_producer approve_reward evaluate_reward split_reward pay_out credit_vault
    credit_reputation credit_pool reward_of calculate_reward_dynamic effective_energy_per_src
    device_difficulty_multiplier energy_per_src emission_difficulty emission_share exp_fp exp_loop
    log10_1p_fp ln_1p_fp alternating_loop series_loop fp_mul reward_for_energy
mint_runs = refl

one_mint : Run Anything derive a_ledger 50_000_000 0 after_mint
one_mint = steps a_runtime 5 mint_call stays tt mint_runs

records-AreKept_example : AreKept a_ledger.devices.producers after_mint.devices.producers
records-AreKept_example = records-AreKept derive a_ledger after_mint 50_000_000 0 one_mint

report_is_minted_once_example :
    run a_runtime derive after_mint 6 mint_call ≢ ok (after_mint, mint_flow)
report_is_minted_once_example =
    report_is_minted_once derive a_runtime a_runtime a_ledger after_mint after_mint 5 6
      mint_accounts mint_accounts a_report a_report mint_flow 0 0 (after_mint, mint_flow) mint_runs
      stays refl (omega arith)

abbrev revoked_ledger : Ledger
revoked_ledger = record a_ledger {
  devices = record a_ledger.devices {
    producers = store (λ k. none) 40 (record a_producer { revoked = true });
  };
}

revoked_never_mints_example :
    run a_runtime derive revoked_ledger 5 mint_call ≢ ok (after_mint, mint_flow)
revoked_never_mints_example =
    revoked_never_mints derive a_runtime revoked_ledger revoked_ledger 5 mint_accounts a_report 0 0
      (after_mint, mint_flow) refl stays

-- A policy under which nothing is minted.
abbrev paused : PolicyRegistry
paused = record (defaults 1 255) { mint_enabled = false }

policies_are_left_out_example :
    run a_runtime derive (record a_ledger { policy_registry = some paused }) 5 mint_call
    ≡ ok (record after_mint { policy_registry = some paused }, mint_flow)
policies_are_left_out_example =
    policies_are_left_out a_runtime derive a_ledger after_mint 5 mint_accounts a_report
      (some paused) mint_flow refl mint_runs

abbrev a_hash : Bytes
a_hash = repeat 32 8

abbrev voting : Runtime
voting = record a_runtime {
  instruction_back = λ n. signed_by 5 (repeat 64 5) (oracle_attest_message 3 1 a_hash);
}

abbrev after_vote : Ledger
after_vote = record a_ledger {
  quorum = record a_ledger.quorum {
    attestations =
        store (λ k. none) 7
          (record {
            device_id = 3;
            nonce = 1;
            proof_hash = a_hash;
            votes = 1;
            finalized = false;
            conflict = false;
            created_at = pos 1_000_000;
          });
    votes =
        store (λ k. none) 7
          (record {
            oracle = 5;
            attestation = 7;
            proof_hash = a_hash;
            voted_at = pos 1_000_000;
            reward_claimed = false;
          });
  };
}

abbrev vote_call : Call
vote_call =
    Call.quorum
      (QuorumCall.submit_oracle_attestation 3 5 instructions_sysvar_id false 1 a_hash (repeat 64 5))

vote_runs : run voting derive a_ledger 5 vote_call ≡ ok (after_vote, no_flow)
unfolding run run_quorum submit_oracle_attestation apply_vote all_zero contains bytes_eq
    verify_ed25519_signature scan_back is_verification verify_ed25519_instruction_data build_data
    oracle_attest_message to_bytes u64_bytes le_bytes
vote_runs = refl

abbrev strict : Option OracleQuorumConfig
strict = some (record a_config { required = true; threshold = 9 })

threshold_is_left_out_example :
    run voting derive
      (record a_ledger { quorum = record a_ledger.quorum { config = strict } })
      5
      vote_call
    ≡ ok (record after_vote { quorum = record after_vote.quorum { config = strict } }, no_flow)
threshold_is_left_out_example =
    threshold_is_left_out voting derive a_ledger after_vote 5 3 5 instructions_sysvar_id 1 a_hash
      (repeat 64 5) strict no_flow vote_runs

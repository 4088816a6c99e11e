-- ===== src/Mint/Tests.antt =====
-- A mint of 50 kWh from the first supply, and the theorems on it.
use enrg.Prelude.{◌≤◌}
use enrg.Constants.{basic_monthly_limit_wh, enrg_profile_program_id}
use enrg.Device.{monthly_limit_wh}
use enrg.Device.Profile.{init_energy_profile}
use enrg.Mint.Month.{first_mint, month_is_limited}
use enrg.Mint.Unrated.{fresh_profile_mints_nothing}
use enrg.Profile.{EnergyProfile}
use enrg.Prelude.{◌≡◌, ◌≢◌, refl, none, some, [], ◌∷◌, ok, arith, contains}
use enrg.Prelude.Int.{pos, ◌+ℤ◌, ◌-ℤ◌}
use enrg.Messages.{
  le_bytes, to_bytes, u64_bytes, i64_bytes, device_message_to_sign, oracle_message_to_sign,
}
use enrg.Ed25519.{
  verify_ed25519_instruction_data, is_verification, scan_back, verify_ed25519_signature,
}
use enrg.Ed25519.Sound.{build_data}
use enrg.Device.{can_mint, roll_month, effective_month_energy, allows_increment, monthly_limit_wh}
use enrg.Validation.{verify_nonce, verify_timestamp_with_skew, verify_device_clock}
use enrg.Policy.{evaluate_preamble, evaluate_reward}
use enrg.Profile.{
  decayed, update_energy_window, record_production_inner, record_production_authorized,
}
use enrg.Math.{
  fp_mul, exp_loop, exp_fp, alternating_loop, series_loop, ln_1p_fp, log10_1p_fp, emission_share,
  emission_difficulty, energy_per_src, device_difficulty_multiplier, effective_energy_per_src,
  reward_for_energy, calculate_reward_dynamic, update_window, update_energy_window_u128,
}
use enrg.Samples.{
  a_report, a_runtime, a_producer, a_vault, a_profile, a_context, a_state, a_split, minted,
}
use enrg.Mint.Distribution.{shares_of, split_reward-shares_of}
use enrg.Mint.Effects.{IsSettled, mint_energy-IsSettled}
use enrg.Mint.History.{none_yet, then_mint, IsHistory, Mints-IsHistory}
use enrg.Mint.{
  check_accounts, authenticate, quorum_gate, preamble, credit_producer, split_reward, pay_out,
  credit_vault, credit_reputation, credit_pool, roll_network, reward_of, approve_reward, admit,
  disburse, settle, mint_energy,
}

rewards : reward_of a_report (record a_vault { network_energy_30d = 50_000 }) a_profile ≡ 50_000_000
unfolding reward_of calculate_reward_dynamic effective_energy_per_src device_difficulty_multiplier
    energy_per_src emission_difficulty emission_share exp_fp exp_loop log10_1p_fp ln_1p_fp
    alternating_loop series_loop fp_mul reward_for_energy
rewards = refl

mints : mint_energy a_runtime a_context a_state a_report ≡ ok (minted, a_split)
unfolding mint_energy admit check_accounts authenticate quorum_gate preamble roll_month can_mint
    effective_month_energy allows_increment monthly_limit_wh verify_nonce verify_timestamp_with_skew
    verify_device_clock evaluate_preamble verify_ed25519_signature scan_back is_verification
    verify_ed25519_instruction_data build_data device_message_to_sign oracle_message_to_sign
    to_bytes u64_bytes i64_bytes le_bytes contains ◌+ℤ◌ ◌-ℤ◌ settle disburse roll_network
    update_energy_window_u128 update_window record_production_authorized record_production_inner
    update_energy_window decayed credit_producer approve_reward evaluate_reward split_reward pay_out
    credit_vault credit_reputation credit_pool reward_of calculate_reward_dynamic
    effective_energy_per_src device_difficulty_multiplier energy_per_src emission_difficulty
    emission_share exp_fp exp_loop log10_1p_fp ln_1p_fp alternating_loop series_loop fp_mul
    reward_for_energy
mints = refl

mint_energy-IsSettled_example : IsSettled a_context a_state a_report minted a_split
mint_energy-IsSettled_example =
    mint_energy-IsSettled a_runtime a_context a_state a_report minted a_split mints

Mints-IsHistory_example : IsHistory a_state (1 ∷ []) 50_000_000 minted
Mints-IsHistory_example =
    Mints-IsHistory a_state (1 ∷ []) 50_000_000 minted (omega arith)
      (then_mint a_runtime a_context a_report none_yet refl mints)

splits : split_reward 50_000_000 ≡ ok a_split
unfolding split_reward
splits = refl

split_reward-shares_of_example : split_reward 50_000_000 ≡ ok (shares_of 50_000_000)
split_reward-shares_of_example = split_reward-shares_of 50_000_000 (omega arith)

basic_limit : monthly_limit_wh a_producer.tier ≡ some basic_monthly_limit_wh
unfolding monthly_limit_wh
basic_limit = refl

month_is_limited_example :
    (minted.producer.month_energy_wh ≤ basic_monthly_limit_wh)
    × (minted.producer.tier ≡ a_producer.tier)
month_is_limited_example =
    month_is_limited a_state minted basic_monthly_limit_wh basic_limit
      (first_mint a_runtime a_context a_state a_report a_split minted refl mints)

abbrev unrated_profile : EnergyProfile
unrated_profile = record {
  authority = 11;
  device_id = 3;
  rated_power = 0;
  device_type = [];
  location = [];
  device_energy_30d = 0;
  device_energy_updated_at = pos 1_000_000;
  bump = 255;
}

creates_profile :
    init_energy_profile a_runtime (λ seeds. 8) 255 a_producer none 11 enrg_profile_program_id 8
    ≡ ok unrated_profile
unfolding init_energy_profile
creates_profile = refl

fresh_profile_mints_nothing_example :
    mint_energy a_runtime a_context (record a_state { profile = unrated_profile }) a_report
    ≢ ok (minted, a_split)
fresh_profile_mints_nothing_example =
    fresh_profile_mints_nothing a_runtime a_runtime (λ seeds. 8) 255 a_producer none 11
      enrg_profile_program_id 8 unrated_profile a_context
      (record a_state { profile = unrated_profile }) a_report (minted, a_split) creates_profile refl
      refl

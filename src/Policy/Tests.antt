-- ===== src/Policy/Tests.antt =====
-- The policy engine on the report of the samples.
use enrg.Prelude.{◌≡◌, refl, Bool, true, none, some, ok, err, code, ErrorCode}
use enrg.Prelude.Int.{pos, ◌+ℤ◌, ◌-ℤ◌}
use enrg.Constants.{expected_deployer}
use enrg.Samples.{a_runtime, a_report, a_producer}
use enrg.Device.{can_mint, effective_month_energy, allows_increment, monthly_limit_wh}
use enrg.Validation.{verify_timestamp_with_skew, verify_device_clock}
use enrg.Policy.{
  PolicyRegistry, defaults, MintPreambleInput, MintRewardInput, evaluate_preamble, evaluate_reward,
  initialize_policy_registry,
}
use enrg.Policy.Preamble.{in_force, IsAllowed, evaluate_preamble-IsAllowed}

abbrev an_input : MintPreambleInput
an_input = record {
  policy = none;
  producer = a_producer;
  report = a_report;
  oracle_trusted = true;
  profile_rated_power = 100_000;
  now = pos 1_000_000;
}

allows : evaluate_preamble an_input ≡ ok tt
unfolding evaluate_preamble can_mint effective_month_energy allows_increment monthly_limit_wh
    verify_timestamp_with_skew verify_device_clock ◌+ℤ◌ ◌-ℤ◌
allows = refl

paused :
    evaluate_preamble
      (record an_input { policy = some (record (defaults 1 1) { mint_enabled = Bool.false }) })
    ≡ err (code ErrorCode.mint_paused)
unfolding evaluate_preamble
paused = refl

evaluate_preamble-IsAllowed_example : IsAllowed (in_force none) an_input
evaluate_preamble-IsAllowed_example = evaluate_preamble-IsAllowed an_input allows

abbrev a_reward : MintRewardInput
a_reward = record { policy = none; reward = 10; vault_total_supply = 90; vault_max_supply = 100 }

covers : evaluate_reward a_reward ≡ ok tt
unfolding evaluate_reward
covers = refl

abbrev first_policies : PolicyRegistry
first_policies = record (defaults expected_deployer 255) { updated_at = pos 1_000_000 }

begins : initialize_policy_registry a_runtime none expected_deployer 255 ≡ ok first_policies
unfolding initialize_policy_registry
begins = refl

-- ===== src/Policy/Preamble.antt =====
-- What the policy engine's two decisions guarantee when they say yes.
use enrg.Prelude.{
  ℕ, ◌+◌, ◌*◌, ◌/◌, ◌≤◌, ◌<◌, ◌≡◌, refl, sym, ◌∙◌, Bool, true, false, Option, none, some, Result,
  ok, arith, require_then, check_then, require-ok, inr, WhenOn, when_true,
}
use enrg.Solana.{Pubkey}
use enrg.Device.{can_mint, allows_increment}
use enrg.Validation.{verify_timestamp_with_skew, verify_device_clock}
use enrg.Validation.Window.{
  InWindow, verify_timestamp_with_skew-InWindow, verify_device_clock-verify_timestamp,
}
use enrg.Policy.{
  PolicyRegistry, defaults, MintPreambleInput, MintRewardInput, when_on, check_energy,
  evaluate_preamble, evaluate_reward,
}

-- The policies in force: the registry's, or the defaults where there is none.
abbrev pub in_force : Option PolicyRegistry → PolicyRegistry
in_force none = defaults 0 0
in_force (some p) = p

when_on-on : (b : Bool) (m : Result (Unit {0})) → when_on b m ≡ ok tt → b ≡ true → m ≡ ok tt
when_on-on true m h e = h
when_on-on false m h e = cc

-- Both checks of an input with the policies in force `p`.
pub record IsAllowed (p : PolicyRegistry) (input : MintPreambleInput) : Type 0 where
  pub is_enabled : p.mint_enabled ≡ true
  pub is_trusted : WhenOn p.enforce_oracle_whitelist (input.oracle_trusted ≡ true)
  pub is_active : WhenOn p.enforce_device_state (can_mint input.producer input.now ≡ true)
  pub is_fresh : InWindow input.now input.report.verified_at p.max_clock_skew_sec
  pub is_timely :
      InWindow input.report.verified_at input.report.device_timestamp p.max_clock_skew_sec
  pub is_within_tier : WhenOn p.enforce_tier_limits (
      allows_increment input.producer.tier input.producer.month_energy_wh input.report.energy_wh
      ≡ true)
  pub is_within_power :
      WhenOn p.enforce_energy_caps
        (input.report.energy_wh ≤ input.profile_rated_power * p.max_energy_bps / 10_000)

-- A registry with the default policies decides as no registry does, for any authority and bump.
pub evaluate_preamble-defaults :
    (a : Pubkey) (b : ℕ) (input : MintPreambleInput)
    → evaluate_preamble (record input { policy = some (defaults a b) })
      ≡ evaluate_preamble (record input { policy = none })
unfolding evaluate_preamble
evaluate_preamble-defaults a b input = refl

check_energy-le : (rated bps e : ℕ) → check_energy rated bps e ≡ ok tt → e ≤ rated * bps / 10_000
check_energy-le rated bps e h = ground arith

some-IsAllowed :
    (p : PolicyRegistry) (input : MintPreambleInput)
    → evaluate_preamble (record input { policy = some p }) ≡ ok tt
    → IsAllowed p input
unfolding evaluate_preamble
some-IsAllowed p input h =
    let r = input.report in
    let (enabled, h₁) = require_then p.mint_enabled _ _ h in
    let (trusted, h₂) = check_then (when_on p.enforce_oracle_whitelist _) _ h₁ in
    let (active, h₃) = check_then (when_on p.enforce_device_state _) _ h₂ in
    let (fresh, h₄) = check_then (verify_timestamp_with_skew input.now r.verified_at _) _ h₃ in
    let (timely, h₅) = check_then (verify_device_clock r.device_timestamp r.verified_at _) _ h₄ in
    let (tier, power) = check_then (when_on p.enforce_tier_limits _) _ h₅ in
    record {
      is_enabled = enabled;
      is_trusted =
          when_true p.enforce_oracle_whitelist
            (λ e. require-ok input.oracle_trusted _ (when_on-on _ _ trusted e));
      is_active =
          when_true p.enforce_device_state
            (λ e. require-ok (can_mint input.producer input.now) _ (when_on-on _ _ active e));
      is_fresh =
          verify_timestamp_with_skew-InWindow input.now r.verified_at p.max_clock_skew_sec fresh;
      is_timely =
          verify_timestamp_with_skew-InWindow r.verified_at r.device_timestamp p.max_clock_skew_sec
            (sym (
                verify_device_clock-verify_timestamp r.device_timestamp r.verified_at
                  p.max_clock_skew_sec)
              ∙ timely);
      is_within_tier =
          when_true p.enforce_tier_limits
            (λ e. require-ok (allows_increment _ _ _) _ (when_on-on _ _ tier e));
      is_within_power = when_true p.enforce_energy_caps (λ e.
          check_energy-le input.profile_rated_power p.max_energy_bps r.energy_wh
            (when_on-on _ _ power e));
    }

with_policy :
    (o : Option PolicyRegistry) (input : MintPreambleInput)
    → evaluate_preamble (record input { policy = o }) ≡ ok tt
    → IsAllowed (in_force o) input
with_policy none input h =
    some-IsAllowed (defaults 0 0) input (evaluate_preamble-defaults 0 0 input ∙ h)
with_policy (some p) input h = some-IsAllowed p input h

-- When the preamble says yes, then under the policies in force (those of the registry, or the
-- defaults) minting is switched on; where its switch is on, the oracle is trusted, the device can
-- mint, the tier allows the energy, and the energy is at most the rated power times the basis
-- points over 10,000; and always the oracle's time lies in the window about the clock, and the
-- device's time in the window about the oracle's.
pub evaluate_preamble-IsAllowed :
    (input : MintPreambleInput)
    → evaluate_preamble input ≡ ok tt
    → IsAllowed (in_force input.policy) input
evaluate_preamble-IsAllowed input h = with_policy input.policy input h

-- The supply bound of a reward, under policies `p`.
abbrev pub IsCovered : PolicyRegistry → MintRewardInput → Type 0
IsCovered p input =
    (0 < input.reward)
    × WhenOn p.enforce_supply_cap (input.vault_total_supply + input.reward ≤ input.vault_max_supply)

some-IsCovered :
    (o : Option PolicyRegistry) (input : MintRewardInput)
    → evaluate_reward (record input { policy = o }) ≡ ok tt
    → IsCovered (in_force o) input
unfolding evaluate_reward
some-IsCovered none input h = (ground arith, inr (ground arith))
some-IsCovered (some p) input h =
    (ground arith, when_true p.enforce_supply_cap (λ on. ground arith))

-- A reward that is let through is positive, and while the supply cap is enforced it keeps the total
-- within the vault's maximum.
pub evaluate_reward-IsCovered :
    (input : MintRewardInput)
    → evaluate_reward input ≡ ok tt
    → IsCovered (in_force input.policy) input
evaluate_reward-IsCovered input h = some-IsCovered input.policy input h

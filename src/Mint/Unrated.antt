-- ===== src/Mint/Unrated.antt =====
-- A device whose profile has no rated power yet.
use enrg.Prelude.{WhenOn-elim, ℕ, ◌*◌, ◌/◌, ◌≤◌, ◌≡◌, ◌≢◌, ap, ◌∙◌, arith, true, Option, List, ok}
use enrg.Solana.{Pubkey, Bytes, Runtime}
use enrg.Messages.{OracleReport}
use enrg.Math.{reward_for_energy, calculate_reward_dynamic}
use enrg.Device.{EnergyProducer}
use enrg.Device.Profile.{init_energy_profile, init_energy_profile_sound}
use enrg.Profile.{EnergyProfile}
use enrg.Vault.{Vault}
use enrg.Policy.Preamble.{in_force}
use enrg.Mint.{MintContext, MintState, Split, reward_of, mint_energy}
use enrg.Mint.Admission.{admit_sound}
use enrg.Mint.Month.{admitted}
use enrg.Mint.Effects.{mint_energy-IsSettled, mint_energy-credited}

no_energy : (eps : ℕ) → reward_for_energy 0 eps ≡ 0
unfolding reward_for_energy
no_energy eps = ground arith

no_reward :
    (r : OracleReport) (v : Vault) (profile : EnergyProfile)
    → r.energy_wh ≡ 0
    → reward_of r v profile ≡ 0
unfolding reward_of calculate_reward_dynamic
no_reward r v profile none_produced = rw none_produced (no_energy _)

-- Under policies that cap the energy by the rated power, no mint succeeds without one.
unrated_is_refused :
    (rt : Runtime) (c : MintContext) (s : MintState) (r : OracleReport) (z : MintState × Split)
    → (in_force c.policy_registry).enforce_energy_caps ≡ true
    → s.profile.rated_power ≡ 0
    → mint_energy rt c s r ≢ ok z
unrated_is_refused rt c s r (out, split) capped unrated h =
    let allowed = (admit_sound rt c s r (admitted rt c s r (out, split) h)).1 in
    let cap = WhenOn-elim allowed.is_within_power capped in
    let nothing : r.energy_wh ≡ 0 = no_power (in_force c.policy_registry).max_energy_bps cap in
    let (_, network, amount) = mint_energy-credited rt c s r out split h in
    let positive = (mint_energy-IsSettled rt c s r out split h).is_covered.0 in
    absurd (omega (arith, positive, amount, no_reward r network s.profile nothing))
  where
    no_power : (bps : ℕ) → r.energy_wh ≤ s.profile.rated_power * bps / 10_000 → r.energy_wh ≡ 0
    no_power bps le = let le' = rw unrated at le in omega arith

-- After the profile of a device was created, no mint with the profile as it was created succeeds
-- under policies that cap the energy by the rated power, whatever the report and the other
-- accounts are.
pub fresh_profile_mints_nothing :
    (rt rt' : Runtime) (derive : List Bytes → Pubkey) (bump : ℕ) (producer : EnergyProducer)
    (profile : Option EnergyProfile) (authority profile_program profile_key : Pubkey)
    (fresh : EnergyProfile) (c : MintContext) (s : MintState) (r : OracleReport)
    (z : MintState × Split)
    → init_energy_profile rt derive bump producer profile authority profile_program profile_key
      ≡ ok fresh
    → s.profile ≡ fresh
    → (in_force c.policy_registry).enforce_energy_caps ≡ true
    → mint_energy rt' c s r ≢ ok z
fresh_profile_mints_nothing rt rt' derive bump producer profile authority profile_program
      profile_key fresh c s r z h same capped =
    let (_, _, _, _, _, unrated) =
      init_energy_profile_sound rt derive bump producer profile authority profile_program
        profile_key fresh h in
    unrated_is_refused rt' c s r z capped (ap (λ p. p.rated_power) same ∙ unrated)

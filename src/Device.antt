-- ===== src/Device.antt =====
-- programs/enrg-mvp/src/state/producer.rs and state/owner_devices.rs: the record of a device, its
-- states and tiers, and the monthly window. Rust's `&mut self` is a function to the new record.
pub mod Lifecycle
pub mod Profile
pub mod Calls
pub mod Transitions
pub mod Fleet
mod Tests
use enrg.Prelude.{
  ℕ, Bool, true, false, not, ◌&&◌, ◌||◌, Option, none, some, ltb, leb, if◌then◌else◌, map_or,
  checked_add, u64_max,
}
use enrg.Prelude.Int.{ℤ, pos, leb_ℤ, eqb_ℤ, saturating_sub_i64}
use enrg.Constants.{basic_monthly_limit_wh, verified_monthly_limit_wh, tier_month_secs}
use enrg.Solana.{Pubkey}

pub data DeviceState : Type 0 where
  unregistered registered claimed provisioned active quarantine maintenance revoked : DeviceState

-- The derived `PartialEq`.
pub DeviceState-discrete : Discrete DeviceState
DeviceState-discrete = hlevel

abbrev pub is_active : DeviceState → Bool
is_active active = true
is_active _ = false

abbrev pub is_registered : DeviceState → Bool
is_registered registered = true
is_registered _ = false

abbrev pub is_revoked : DeviceState → Bool
is_revoked revoked = true
is_revoked _ = false

-- `DeviceState::can_mint`
abbrev pub state_can_mint : DeviceState → Bool
state_can_mint active = true
state_can_mint _ = false

unfoldable pub can_transition_to : DeviceState → DeviceState → Bool
can_transition_to unregistered registered = true
can_transition_to registered claimed = true
can_transition_to claimed provisioned = true
can_transition_to provisioned active = true
can_transition_to active quarantine = true
can_transition_to active maintenance = true
can_transition_to active revoked = true
can_transition_to quarantine active = true
can_transition_to quarantine maintenance = true
can_transition_to quarantine revoked = true
can_transition_to maintenance active = true
can_transition_to maintenance revoked = true
can_transition_to _ _ = false

pub data DeviceTier : Type 0 where
  basic verified industrial institutional : DeviceTier

unfoldable pub monthly_limit_wh : DeviceTier → Option ℕ
monthly_limit_wh basic = some basic_monthly_limit_wh
monthly_limit_wh verified = some verified_monthly_limit_wh
monthly_limit_wh industrial = none
monthly_limit_wh institutional = none

unfoldable pub allows_increment : DeviceTier → ℕ → ℕ → Bool
unfolding monthly_limit_wh
allows_increment tier month_energy report_energy =
    map_or (monthly_limit_wh tier) true
      (λ limit. map_or (checked_add u64_max month_energy report_energy) false (λ v. leb v limit))

pub record EnergyProducer : Type 0 where
  pub authority : Pubkey
  pub device_id : Pubkey
  pub nonce : ℕ
  pub energy_wh : ℕ
  pub timestamp : ℤ
  pub state : DeviceState
  pub tier : DeviceTier
  pub month_energy_wh : ℕ
  pub month_start_ts : ℤ
  pub claim_nonce : ℕ
  pub claimed_at : ℤ
  pub revoked : Bool
  pub rotated_to : Pubkey

pub record OwnerDevices : Type 0 where
  pub owner : Pubkey
  pub total_claimed : ℕ
  pub active_count : ℕ

-- Whether the monthly window has run out, or was never begun.
abbrev pub month_over : EnergyProducer → ℤ → Bool
month_over p now =
    eqb_ℤ p.month_start_ts (pos 0)
    || leb_ℤ tier_month_secs (saturating_sub_i64 now p.month_start_ts)

unfoldable pub effective_month_energy : EnergyProducer → ℤ → ℕ
effective_month_energy p now = if month_over p now then 0 else p.month_energy_wh

-- `EnergyProducer::can_mint`
unfoldable pub can_mint : EnergyProducer → ℤ → Bool
unfolding effective_month_energy monthly_limit_wh
can_mint p now =
    if p.revoked
    then false
    else if not (state_can_mint p.state)
    then false
    else map_or (monthly_limit_wh p.tier) true (λ limit. ltb (effective_month_energy p now) limit)

unfoldable pub roll_month : EnergyProducer → ℤ → EnergyProducer
roll_month p now =
    if month_over p now then record p { month_start_ts = now; month_energy_wh = 0 } else p

-- ===== src/Profile.antt =====
-- programs/enrg-profile/src/lib.rs: the second program, which keeps the rated power of a device and
-- its energy of the last thirty days. A text is its bytes.
pub mod Window
mod Tests
use enrg.Prelude.{
  ℕ, ◌+◌, ◌-◌, ◌*◌, ◌/◌, Bool, true, false, not, ◌&&◌, ◌||◌, Option, none, some, List, [], ◌∷◌,
  length, leb, ◌==◌, if◌then◌else◌, saturating_add, saturating_mul, u128_max, Result, ok, err,
  framework, profile_code, ProfileCode, ◌>>=◌, ◌>>◌,
}
use enrg.Prelude.Int.{ℤ, pos, leb_ℤ, sub_i64, pos_part}
use enrg.Solana.{Pubkey, Bytes, Runtime}

pub record EnergyProfile : Type 0 where
  pub authority : Pubkey
  pub device_id : Pubkey
  pub rated_power : ℕ
  pub device_type : Bytes
  pub location : Bytes
  pub device_energy_30d : ℕ
  pub device_energy_updated_at : ℤ
  pub bump : ℕ

abbrev pub thirty_days_seconds : ℕ
thirty_days_seconds = 30 * 24 * 60 * 60

-- The window after an elapsed time: it decays in proportion, and is forgotten after thirty days.
unfoldable pub decayed : ℕ → ℤ → ℕ → ℕ
decayed current elapsed new_energy =
    if leb_ℤ elapsed (pos 0)
    then saturating_add u128_max current new_energy
    else if leb thirty_days_seconds (pos_part elapsed)
    then new_energy
    else saturating_add u128_max
        (current - saturating_mul u128_max current (pos_part elapsed) / thirty_days_seconds)
        new_energy

unfoldable pub update_energy_window : ℕ → ℤ → ℤ → ℕ → Result ℕ
update_energy_window current last_updated_at now new_energy = do
  elapsed ← sub_i64 now last_updated_at
  ok (decayed current elapsed new_energy)

unfoldable pub record_production_inner : EnergyProfile → ℕ → ℤ → Result EnergyProfile
record_production_inner profile energy_wh timestamp = do
  window ←
      update_energy_window profile.device_energy_30d profile.device_energy_updated_at timestamp
        energy_wh
  ok (record profile { device_energy_30d = window; device_energy_updated_at = timestamp })

abbrev pub require_profile : Bool → ProfileCode → Result (Unit {0})
require_profile true e = ok tt
require_profile false e = err (profile_code e)

abbrev pub max_rated_power : ℕ
max_rated_power = 1_000_000

abbrev pub check_metadata : ℕ → Bytes → Bytes → Result (Unit {0})
check_metadata rated_power device_type location = do
  require_profile (leb (length device_type) 32) ProfileCode.device_type_too_long
  require_profile (leb (length location) 64) ProfileCode.location_too_long
  require_profile (leb rated_power max_rated_power) ProfileCode.rated_power_too_high

unfoldable pub initialize_profile :
    Runtime → Option EnergyProfile → Pubkey → Pubkey → ℕ → Bytes → Bytes → ℕ → Result EnergyProfile
initialize_profile rt (some _) signer device_id rated_power device_type location bump =
    err (framework 0)
initialize_profile rt none signer device_id rated_power device_type location bump = do
  check_metadata rated_power device_type location
  ok (record {
    authority = signer;
    device_id = device_id;
    rated_power = rated_power;
    device_type = device_type;
    location = location;
    device_energy_30d = 0;
    device_energy_updated_at = rt.now;
    bump = bump;
  })

-- The profile is the one at the address that the signer's key derives.
unfoldable pub update_metadata : EnergyProfile → ℕ → Bytes → Bytes → Result EnergyProfile
update_metadata profile rated_power device_type location = do
  check_metadata rated_power device_type location
  require_profile (profile.rated_power == 0 || rated_power == profile.rated_power)
      ProfileCode.rated_power_immutable
  ok (record profile { rated_power = rated_power; device_type = device_type; location = location })

unfoldable pub record_production : EnergyProfile → ℕ → ℤ → Result EnergyProfile
record_production = record_production_inner

-- `b"mint-authority"`
abbrev pub mint_authority_seed : Bytes
mint_authority_seed =
    109 ∷ 105 ∷ 110 ∷ 116 ∷ 45 ∷ 97 ∷ 117 ∷ 116 ∷ 104 ∷ 111 ∷ 114 ∷ 105 ∷ 116 ∷ 121 ∷ []

-- The runtime derives addresses under the id of enrg-mvp.
abbrev pub mint_authority_pda : Runtime → Pubkey
mint_authority_pda rt = rt.find_program_address (mint_authority_seed ∷ [])

unfoldable pub record_production_authorized :
    Runtime → EnergyProfile → Pubkey → Pubkey → ℕ → ℤ → Result EnergyProfile
record_production_authorized rt profile caller authority energy_wh timestamp = do
  require_profile (profile.authority == authority) ProfileCode.profile_authority_mismatch
  require_profile (caller == mint_authority_pda rt) ProfileCode.unauthorized_caller
  record_production_inner profile energy_wh timestamp

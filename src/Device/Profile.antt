-- ===== src/Device/Profile.antt =====
-- init_energy_profile of programs/enrg-mvp/src/instructions/device_lifecycle.rs: the owner of a
-- device creates its energy profile by a call into enrg-profile. Until the owner sets the rated
-- power, no energy passes the cap.
use enrg.Prelude.{
  ℕ, ◌≡◌, sym, ◌∙◌, arith, not, false, Option, none, some, List, [], ◌∷◌, ◌==◌, ==→eq, Result, ok,
  ErrorCode, require, ◌>>◌, require_then,
}
use enrg.Constants.{enrg_profile_program_id}
use enrg.Solana.{Pubkey, Bytes, codes, Runtime}
use enrg.Messages.{to_bytes}
use enrg.Device.{EnergyProducer}
use enrg.Profile.{EnergyProfile, initialize_profile}

-- `derive` gives the address of seeds under the other program, and `bump` its bump.
unfoldable pub init_energy_profile :
    Runtime
    → (derive : List Bytes → Pubkey) → ℕ
    → EnergyProducer
    → Option EnergyProfile
    → Pubkey
    → Pubkey
    → Pubkey
    → Result EnergyProfile
unfolding to_bytes initialize_profile
init_energy_profile rt derive bump producer profile authority profile_program profile_key = do
  require (producer.authority == authority) ErrorCode.unauthorized
  require (profile_program == enrg_profile_program_id) ErrorCode.invalid_parameter
  require (not producer.revoked) ErrorCode.device_revoked
  require (profile_key == derive (codes "profile" ∷ to_bytes authority ∷ []))
      ErrorCode.invalid_parameter
  initialize_profile rt profile authority producer.device_id 0 [] [] bump

created :
    (rt : Runtime) (profile : Option EnergyProfile) (authority device_id : Pubkey) (bump : ℕ)
    (out : EnergyProfile)
    → initialize_profile rt profile authority device_id 0 [] [] bump ≡ ok out
    → (profile ≡ none)
      × (out.authority ≡ authority)
      × (out.device_id ≡ device_id)
      × (out.rated_power ≡ 0)
unfolding initialize_profile
created rt none authority device_id bump out h = ground arith
created rt (some _) authority device_id bump out h = cc

-- A profile is created once, by the owner of a device that is not revoked, for that device, and
-- without a rated power.
pub init_energy_profile_sound :
    (rt : Runtime) (derive : List Bytes → Pubkey) (bump : ℕ) (producer : EnergyProducer)
    (profile : Option EnergyProfile) (authority profile_program profile_key : Pubkey)
    (out : EnergyProfile)
    → init_energy_profile rt derive bump producer profile authority profile_program profile_key
      ≡ ok out
    → (producer.authority ≡ authority)
      × (producer.revoked ≡ false)
      × (profile ≡ none)
      × (out.authority ≡ producer.authority)
      × (out.device_id ≡ producer.device_id)
      × (out.rated_power ≡ 0)
unfolding init_energy_profile
init_energy_profile_sound rt derive bump producer profile authority profile_program profile_key out
      h =
    let address = derive (codes "profile" ∷ to_bytes authority ∷ []) in
    let (owned, h₁) = require_then (producer.authority == authority) _ _ h in
    let (_, h₂) = require_then (profile_program == enrg_profile_program_id) _ _ h₁ in
    let (live, h₃) = require_then (not producer.revoked) _ _ h₂ in
    let (_, h₄) = require_then (profile_key == address) _ _ h₃ in
    let (fresh, owner, device, no_power) =
      created rt profile authority producer.device_id bump out h₄ in
    let same = ==→eq producer.authority authority owned in
    (same, ground arith, fresh, owner ∙ sym same, device, no_power)

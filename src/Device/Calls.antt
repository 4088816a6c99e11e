-- ===== src/Device/Calls.antt =====
-- A call of one of the device instructions on one device, as programs/enrg-mvp/src/lib.rs
-- dispatches it.
use enrg.Prelude.{ℕ, Bool, true, false, Option, none, some, List, [], ◌∷◌, Result, ok, ◌>>=◌}
use enrg.Prelude.Int.{ℤ}
use enrg.Solana.{Pubkey, Bytes, Runtime}
use enrg.Device.{DeviceTier, EnergyProducer, OwnerDevices}
use enrg.Device.Lifecycle.{
  claim_device, provision_device, activate_device, quarantine_device, maintenance_device,
  release_from_quarantine, revoke_device, rotate_device_key, set_device_tier,
}

-- `revoke` says whether the optional counter is passed; `Option Pubkey` is the authority of the
-- vault, where that account is passed.
pub data Call : Type 0 where
  claim : Pubkey → Bytes → ℕ → ℤ → Call
  provision activate quarantine maintenance release : Call
  revoke : Bool → Option Pubkey → Call
  rotate : Option Pubkey → Pubkey → Pubkey → Pubkey → Bytes → ℕ → ℤ → Call
  set_tier : Pubkey → DeviceTier → Call

abbrev one : EnergyProducer × OwnerDevices → Result (List EnergyProducer × OwnerDevices)
one (p, o) = ok (p ∷ [], o)

abbrev alone : OwnerDevices → EnergyProducer → Result (List EnergyProducer × OwnerDevices)
alone o p = ok (p ∷ [], o)

abbrev passed : Bool → OwnerDevices → Option OwnerDevices
passed true o = some o
passed false o = none

abbrev revoked_with :
    OwnerDevices
    → EnergyProducer × Option OwnerDevices
    → Result (List EnergyProducer × OwnerDevices)
revoked_with o (p, none) = ok (p ∷ [], o)
revoked_with o (p, some o') = ok (p ∷ [], o')

abbrev both :
    OwnerDevices → EnergyProducer × EnergyProducer → Result (List EnergyProducer × OwnerDevices)
both o (old, new) = ok (old ∷ new ∷ [], o)

-- The records that stand for the device after the call, and its owner's counter.
unfoldable pub run_call :
    Runtime
    → Pubkey
    → Call
    → EnergyProducer
    → OwnerDevices
    → Result (List EnergyProducer × OwnerDevices)
run_call rt signer (claim sysvar s n t) p o = claim_device rt p o signer sysvar s n t >>= one
run_call rt signer provision p o = provision_device p signer >>= alone o
run_call rt signer activate p o = activate_device p o signer >>= one
run_call rt signer quarantine p o = quarantine_device p o signer >>= one
run_call rt signer maintenance p o = maintenance_device p o signer >>= one
run_call rt signer release p o = release_from_quarantine p o signer >>= one
run_call rt signer (revoke with_counter vault) p o =
    revoke_device p (passed with_counter o) vault signer >>= revoked_with o
run_call rt signer (rotate vault account sysvar new_id s n t) p o =
    rotate_device_key rt p none vault signer account sysvar new_id s n t >>= both o
run_call rt signer (set_tier vault tier) p o = set_device_tier rt vault p signer tier >>= alone o

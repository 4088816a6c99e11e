-- ===== src/Program/DeviceCalls.antt =====
-- Phase 9 of programs/enrg-mvp/src/lib.rs: the devices, their tiers and the scores of their owners.
-- The instructions of programs/enrg-profile that write a profile stand beside them.
use enrg.Prelude.{ℕ, Bool, Option, none, some, List, [], ◌∷◌, unwrap_or, Result, ok, ◌>>=◌, ◌>>◌}
use enrg.Prelude.Int.{ℤ}
use enrg.Solana.{Pubkey, Bytes, default_key, codes, derived, Runtime}
use enrg.Messages.{to_bytes}
use enrg.Vault.{Vault}
use enrg.Oracle.{OracleRegistry}
use enrg.Device.{DeviceTier, EnergyProducer, OwnerDevices}
use enrg.Device.Lifecycle
use enrg.Device.Profile as DeviceProfile
use enrg.Profile
use enrg.Reputation
use enrg.Program.Accounts.{load, store, store_if, pda, Devices}
use enrg.Program.Minting.{if_passed, reputation_key}
use enrg.Program.Payouts.{producer_key}

-- The first address is that of the device's record, where the caller chooses it; `claim_device` and
-- its kin also pass the sysvar.
pub data DeviceCall : Type 0 where
  register_device : Pubkey → Pubkey → Bytes → ℤ → DeviceCall
  claim_device : Pubkey → Pubkey → Bytes → ℕ → ℤ → DeviceCall
  init_energy_profile : Pubkey → Pubkey → Pubkey → ℕ → DeviceCall
  provision_device activate_device quarantine_device maintenance_device : Pubkey → DeviceCall
  release_from_quarantine : Pubkey → DeviceCall
  revoke_device : Pubkey → Bool → Bool → DeviceCall
  rotate_device_key : Pubkey → Bool → Pubkey → Pubkey → Pubkey → Bytes → ℕ → ℤ → DeviceCall
  set_device_tier : Pubkey → DeviceTier → DeviceCall
  initialize_reputation : DeviceCall
  report_anomaly : Pubkey → ℕ → DeviceCall
  ers_premium_access : Pubkey → DeviceCall

abbrev pub owner_key : Runtime → Pubkey → Pubkey
owner_key rt owner = pda rt (codes "owner-devices") (owner ∷ [])

abbrev pub new_owner : OwnerDevices
new_owner = record { owner = default_key; total_claimed = 0; active_count = 0 }

-- `seeds = [b"producer", producer.device_id.as_ref()]`
unfoldable pub load_producer : Runtime → Devices → Pubkey → Result EnergyProducer
load_producer rt d at = do p ← load (d.producers at); derived at (producer_key rt p.device_id); ok p

abbrev pub put_producer : Devices → Pubkey → EnergyProducer → Devices
put_producer d at p = record d { producers = store d.producers at p }

abbrev pub put_owner : Devices → Pubkey → OwnerDevices → Devices
put_owner d at o = record d { owner_devices = store d.owner_devices at o }

abbrev pub admin : Bool → Option Vault → Result (Option Pubkey)
admin with vault = do
  v ← if_passed with vault
  ok (elim v [ none ↦ none | some w ↦ some w.authority ])

-- The handlers that an owner calls with the counter.
unfoldable pub run_owned :
    Runtime
    → Devices
    → Pubkey
    → Pubkey
    → (EnergyProducer → OwnerDevices → Pubkey → Result (EnergyProducer × OwnerDevices))
    → Result Devices
run_owned rt d signer at handler = do
  p ← load_producer rt d at
  o ← load (d.owner_devices (owner_key rt signer))
  (p', o') ← handler p o signer
  ok (put_owner (put_producer d at p') (owner_key rt signer) o')

module _ (rt : Runtime) (derive : List Bytes → Pubkey) (vault : Option Vault)
    (oracles : Option OracleRegistry) (d : Devices) (signer : Pubkey) where
  unfoldable pub run_devices : DeviceCall → Result Devices
  run_devices (register_device device_id sysvar s t) =
      let at = producer_key rt device_id in
      do
        p ← Lifecycle.register_device rt (d.producers at) device_id sysvar s t
        ok (put_producer d at p)
  run_devices (claim_device at sysvar s n t) =
      let owner_at = owner_key rt signer in
      do
        p ← load_producer rt d at
        let o = unwrap_or (d.owner_devices owner_at) new_owner
        (p', o') ← Lifecycle.claim_device rt p o signer sysvar s n t
        ok (put_owner (put_producer d at p') owner_at o')
  run_devices (init_energy_profile at program profile_at bump) = do
    p ← load_producer rt d at
    created ←
        DeviceProfile.init_energy_profile rt derive bump p (d.profiles profile_at) signer program
          profile_at
    ok (record d { profiles = store d.profiles profile_at created })
  run_devices (provision_device at) = do
    p ← load_producer rt d at
    p' ← Lifecycle.provision_device p signer
    ok (put_producer d at p')
  run_devices (activate_device at) = run_owned rt d signer at Lifecycle.activate_device
  run_devices (quarantine_device at) = run_owned rt d signer at Lifecycle.quarantine_device
  run_devices (maintenance_device at) = run_owned rt d signer at Lifecycle.maintenance_device
  run_devices (release_from_quarantine at) =
      run_owned rt d signer at Lifecycle.release_from_quarantine
  run_devices (revoke_device at with_counter with_vault) = do
    p ← load_producer rt d at
    o ← if_passed with_counter (d.owner_devices (owner_key rt p.authority))
    a ← admin with_vault vault
    (p', o') ← Lifecycle.revoke_device p o a signer
    ok (record (put_producer d at p') {
      owner_devices = store_if d.owner_devices (owner_key rt p.authority) o';
    })
  run_devices (rotate_device_key at with_vault account sysvar new_id s n t) =
      let new_at = producer_key rt account in
      do
        p ← load_producer rt d at
        a ← admin with_vault vault
        (old, new) ←
            Lifecycle.rotate_device_key rt p (d.producers new_at) a signer account sysvar new_id s n
              t
        ok (put_producer (put_producer d at old) new_at new)
  run_devices (set_device_tier at tier) = do
    v ← load vault
    p ← load_producer rt d at
    p' ← Lifecycle.set_device_tier rt v.authority p signer tier
    ok (put_producer d at p')
  run_devices initialize_reputation =
      let at = reputation_key rt signer in
      do
        r ← Reputation.initialize_reputation rt (d.reputations at) signer
        ok (record d { reputations = store d.reputations at r })
  run_devices (report_anomaly at severity) = do
    r ← load (d.reputations at)
    derived at (reputation_key rt r.authority)
    registry ← load oracles
    r' ← Reputation.report_anomaly rt r registry signer severity
    ok (record d { reputations = store d.reputations at r' })
  run_devices (ers_premium_access at) = do
    r ← load (d.reputations at)
    derived at (reputation_key rt r.authority)
    ok d

-- programs/enrg-profile: every writing instruction but the one that enrg-mvp calls.
pub data ProfileCall : Type 0 where
  initialize_profile : Pubkey → ℕ → Bytes → Bytes → ℕ → ProfileCall
  update_metadata : ℕ → Bytes → Bytes → ProfileCall
  record_production : ℕ → ℤ → ProfileCall

unfoldable pub run_profiles :
    Runtime → (derive : List Bytes → Pubkey) → Devices → Pubkey → ProfileCall → Result Devices
run_profiles rt derive d signer (initialize_profile device_id power device_type location bump) =
    let at = derive (codes "profile" ∷ to_bytes signer ∷ []) in
    do
      p ←
          Profile.initialize_profile rt (d.profiles at) signer device_id power device_type location
            bump
      ok (record d { profiles = store d.profiles at p })
run_profiles rt derive d signer (update_metadata power device_type location) =
    let at = derive (codes "profile" ∷ to_bytes signer ∷ []) in
    do
      p ← load (d.profiles at)
      p' ← Profile.update_metadata p power device_type location
      ok (record d { profiles = store d.profiles at p' })
run_profiles rt derive d signer (record_production energy_wh timestamp) =
    let at = derive (codes "profile" ∷ to_bytes signer ∷ []) in
    do
      p ← load (d.profiles at)
      p' ← Profile.record_production p energy_wh timestamp
      ok (record d { profiles = store d.profiles at p' })

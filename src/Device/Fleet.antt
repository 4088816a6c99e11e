-- ===== src/Device/Fleet.antt =====
-- The limit of active devices per owner, over every sequence of device calls.
use enrg.Prelude.{
  ℕ, ◌+◌, ◌≤◌, ◌≡◌, ◌≢◌, true, false, List, [], ◌∷◌, ◌++◌, arith, Result, ok, err, if◌then◌else◌,
}
use enrg.Constants.{max_devices_per_owner}
use enrg.Solana.{Pubkey, default_key, Runtime}
use enrg.Device.{EnergyProducer, OwnerDevices, is_active}
use enrg.Device.Lifecycle.{
  claim_device, provision_device, activate_device, quarantine_device, maintenance_device,
  release_from_quarantine, revoke_device, rotate_device_key, set_device_tier,
}
use enrg.Device.Calls.{
  Call, claim, provision, activate, quarantine, maintenance, release, revoke, rotate, set_tier,
  run_call,
}

-- How many of the records are in state `Active`.
abbrev pub active_total : List EnergyProducer → ℕ
active_total [] = 0
active_total (p ∷ ps) = (if is_active p.state then 1 else 0) + active_total ps

active_total-append :
    (ps qs : List EnergyProducer) → active_total (ps ++ qs) ≡ active_total ps + active_total qs
active_total-append [] qs = omega arith
active_total-append (p ∷ ps) qs = omega (arith, active_total-append ps qs)

-- The devices of one owner, with the owner's counter.
pub record Fleet : Type 0 where
  pub devices : List EnergyProducer
  pub counter : OwnerDevices

-- A call succeeds on one of the devices. The signer is any address but the default one, for which
-- there is no key to sign with.
pub data Step : Fleet → Fleet → Type 0 where
  calls :
      (rt : Runtime) (signer : Pubkey) (c : Call) (before after new : List EnergyProducer)
      (p : EnergyProducer) (o o' : OwnerDevices)
      → signer ≢ default_key
      → run_call rt signer c p o ≡ ok (new, o')
      → Step
          (record { devices = before ++ (p ∷ after); counter = o })
          (record { devices = before ++ (new ++ after); counter = o' })

pub data Steps (f : Fleet) : Fleet → Type 0 where
  here : Steps f f
  next : {g h : Fleet} → Steps f g → Step g h → Steps f h

pub record IsCounted (f : Fleet) : Type 0 where
  pub counted : active_total f.devices ≤ f.counter.active_count
  pub limited : f.counter.active_count ≤ max_devices_per_owner
  pub unowned : f.counter.owner ≡ default_key → f.counter.active_count ≡ 0

-- What one call does to the number of active records and to the counter. A first claim begins the
-- counter at 0, which is what a fresh account holds.
abbrev Balanced :
    EnergyProducer → OwnerDevices → Result (List EnergyProducer × OwnerDevices) → Type 0
Balanced p o (err _) = Unit
Balanced p o (ok (ps, o')) =
    ((rest : ℕ)
      → active_total (p ∷ []) + rest ≤ o.active_count
      → active_total ps + rest ≤ o'.active_count)
    × (o'.active_count ≤ max_devices_per_owner)
    × (o'.owner ≡ default_key → o'.active_count ≡ 0)

run_call-Balanced :
    (rt : Runtime) (signer : Pubkey) (c : Call) (p : EnergyProducer) (o : OwnerDevices)
    → o.active_count ≤ max_devices_per_owner
    → (o.owner ≡ default_key → o.active_count ≡ 0)
    → signer ≢ default_key
    → Balanced p o (run_call rt signer c p o)
unfolding run_call claim_device provision_device activate_device quarantine_device
    maintenance_device release_from_quarantine revoke_device rotate_device_key set_device_tier
run_call-Balanced rt signer (claim sysvar s n t) p o h z k = ground arith
run_call-Balanced rt signer provision p o h z k = ground arith
run_call-Balanced rt signer activate p o h z k = ground arith
run_call-Balanced rt signer quarantine p o h z k = ground arith
run_call-Balanced rt signer maintenance p o h z k = ground arith
run_call-Balanced rt signer release p o h z k = ground arith
run_call-Balanced rt signer (revoke true vault) p o h z k = ground arith
run_call-Balanced rt signer (revoke false vault) p o h z k = ground arith
run_call-Balanced rt signer (rotate vault account sysvar new_id s n t) p o h z k = ground arith
run_call-Balanced rt signer (set_tier vault tier) p o h z k = ground arith

Step-IsCounted : {f g : Fleet} → Step f g → IsCounted f → IsCounted g
Step-IsCounted (calls rt signer c before after new p o o' k e) h =
    let b : Balanced p o (ok (new, o')) =
      rw e at (run_call-Balanced rt signer c p o h.limited h.unowned k) in
    let m =
      b.0 (active_total before + active_total after)
        (omega (arith, h.counted, active_total-append before (p ∷ after))) in
    record {
      counted =
          omega
            (arith, m, active_total-append before (new ++ after), active_total-append new after);
      limited = b.1;
      unowned = b.2;
    }

-- When an owner's counter is at least the number of the active devices, at most 100, and zero
-- while it has no owner, then it still is after any sequence of successful device calls by
-- signers other than the default key.
pub Steps-IsCounted : {f g : Fleet} → Steps f g → IsCounted f → IsCounted g
Steps-IsCounted here h = h
Steps-IsCounted (next s t) h = Step-IsCounted t (Steps-IsCounted s h)

pub active_devices_limited :
    {f g : Fleet} → Steps f g → IsCounted f → active_total g.devices ≤ max_devices_per_owner
active_devices_limited s h =
    omega (arith, (Steps-IsCounted s h).counted, (Steps-IsCounted s h).limited)

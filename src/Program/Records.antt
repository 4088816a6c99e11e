-- ===== src/Program/Records.antt =====
-- The records of the devices over every run of the program.
use mathlib.Core.Path.{subst}
use enrg.Prelude.{
  ◌≡◌, refl, sym, ◌⊎◌, inl, inr, Bool, true, false, ◌==◌, if◌then◌else◌, ==→eq, Bool-cases,
  unwrap_or, Option, none, some, List, Result, ok,
}
use enrg.Prelude.Int.{ℤ}
use enrg.Solana.{Pubkey, Bytes, Runtime}
use enrg.Vault.{Vault}
use enrg.Oracle.{OracleRegistry}
use enrg.Device.{EnergyProducer, OwnerDevices}
use enrg.Device.Lifecycle.{
  claim_device, provision_device, activate_device, quarantine_device, maintenance_device,
  release_from_quarantine, revoke_device, rotate_device_key, set_device_tier, register_device,
}
use enrg.Program.Accounts.{Accounts, Devices, load, store}
use enrg.Program.Minting.{if_passed}
use enrg.Program.Payouts.{producer_key}
use enrg.Program.DeviceCalls.{
  DeviceCall, ProfileCall, load_producer, owner_key, new_owner, admin, run_owned, run_devices,
  run_profiles,
}
use enrg.Program.Runs.{Ends, fails, gives, Ends->>=, Ends-follow}
use enrg.Program.Kept.{
  Later, Later-refl, Later-trans, claim_device-Later, provision_device-Later, activate_device-Later,
  quarantine_device-Later, maintenance_device-Later, release_from_quarantine-Later,
  revoke_device-Later, rotate_device_key-Later, set_device_tier-Later,
}

-- A record that was there is still there, and is a later one.
abbrev pub IsKept : Option EnergyProducer → Option EnergyProducer → Type 0
IsKept none after = Unit
IsKept (some p) none = ⊥
IsKept (some p) (some q) = Later p q

pub record AreKept (m n : Accounts EnergyProducer) : Type 0 where
  pub at : (k : Pubkey) → IsKept (m k) (n k)

IsKept-refl : (o : Option EnergyProducer) → IsKept o o
IsKept-refl none = tt
IsKept-refl (some p) = Later-refl p

IsKept-trans : (a b c : Option EnergyProducer) → IsKept a b → IsKept b c → IsKept a c
IsKept-trans none b c h k = tt
IsKept-trans (some p) none c h k = elim h [ ]
IsKept-trans (some p) (some q) none h k = elim k [ ]
IsKept-trans (some p) (some q) (some r) h k = Later-trans p q r h k

pub AreKept-refl : (m : Accounts EnergyProducer) → AreKept m m
AreKept-refl m = record { at = λ k. IsKept-refl (m k) }

pub AreKept-trans : (a b c : Accounts EnergyProducer) → AreKept a b → AreKept b c → AreKept a c
AreKept-trans a b c h k = record { at = λ j. IsKept-trans (a j) (b j) (c j) (h.at j) (k.at j) }

stored :
    (b : Bool) (old now : Option EnergyProducer) (q : EnergyProducer)
    → IsKept old (some q) ⊎ (b ≡ false)
    → IsKept old now
    → IsKept old (if b then some q else now)
stored true old now q (inl new) h = new
stored true old now q (inr off) h = cc
stored false old now q new h = h

at_key :
    (m : Accounts EnergyProducer) (k key : Pubkey) (q : EnergyProducer)
    → IsKept (m key) (some q)
    → IsKept (m k) (some q) ⊎ ((k == key) ≡ false)
at_key m k key q new = elim (Bool-cases (k == key)) [
  | inl same ↦ inl (subst (λ j. IsKept (m j) (some q)) (sym (==→eq k key same)) new)
  | inr other ↦ inr other
]

AreKept-store :
    (m n : Accounts EnergyProducer) (key : Pubkey) (q : EnergyProducer)
    → AreKept m n
    → IsKept (m key) (some q)
    → AreKept m (store n key q)
AreKept-store m n key q h new = record {
  at = λ k. stored (k == key) (m k) (n k) q (at_key m k key q new) (h.at k);
}

-- What was loaded from an address is kept there by a later record.
kept_at :
    (o : Option EnergyProducer) (p q : EnergyProducer) → o ≡ some p → Later p q → IsKept o (some q)
kept_at o p q e h = subst (λ x. IsKept x (some q)) (sym e) h

pub load-some : {A : Type 0} (o : Option A) → Ends (λ a. o ≡ some a) (load o)
load-some none = fails _
load-some (some a) = gives a refl

load_producer-some :
    (rt : Runtime) (d : Devices) (at : Pubkey)
    → Ends (λ p. d.producers at ≡ some p) (load_producer rt d at)
unfolding load_producer
load_producer-some rt d at =
    let found = load-some (d.producers at) in search (Ends-follow _ _ found, Ends->>=, gives)

abbrev pub Keeps : Devices → Devices → Type 0
Keeps d e = AreKept d.producers e.producers

-- A handler on one record, stored where it was loaded.
pub one_record :
    (d : Devices) (at : Pubkey) (p q : EnergyProducer)
    → d.producers at ≡ some p
    → Later p q
    → AreKept d.producers (store d.producers at q)
one_record d at p q e h =
    AreKept-store d.producers d.producers at q (AreKept-refl d.producers)
      (kept_at (d.producers at) p q e h)

run_owned-Keeps :
    (rt : Runtime) (d : Devices) (signer at : Pubkey)
    (handler : EnergyProducer → OwnerDevices → Pubkey → Result (EnergyProducer × OwnerDevices))
    → ((p : EnergyProducer) (o : OwnerDevices) (who : Pubkey) (z : EnergyProducer × OwnerDevices)
        → handler p o who ≡ ok z
        → Later p z.0)
    → Ends (Keeps d) (run_owned rt d signer at handler)
unfolding run_owned
run_owned-Keeps rt d signer at handler later =
    Ends-follow (load_producer rt d at) _ (load_producer-some rt d at) (λ p found.
      Ends->>= (load (d.owner_devices (owner_key rt signer))) _ (λ o _.
        Ends->>= (handler p o signer) _
          (λ z e. gives _ (one_record d at p z.0 found (later p o signer z e)))))

-- A record at an address that held nothing.
fresh_record :
    (m n : Accounts EnergyProducer) (at : Pubkey) (q : EnergyProducer)
    → AreKept m n
    → m at ≡ none
    → AreKept m (store n at q)
fresh_record m n at q h e = AreKept-store m n at q h (subst (λ x. IsKept x (some q)) (sym e) tt)

register_device-fresh :
    (rt : Runtime) (existing : Option EnergyProducer) (device_id sysvar : Pubkey) (s : Bytes)
    (t : ℤ)
    → Ends (λ p. existing ≡ none) (register_device rt existing device_id sysvar s t)
unfolding register_device
register_device-fresh rt none device_id sysvar s t = search (Ends->>=, gives) depth 14
register_device-fresh rt (some p) device_id sysvar s t = fails _

module _ (rt : Runtime) (derive : List Bytes → Pubkey) (vault : Option Vault)
    (oracles : Option OracleRegistry) (d : Devices) (signer : Pubkey) where
  pub run_devices-Keeps :
      (c : DeviceCall) → Ends (Keeps d) (run_devices rt derive vault oracles d signer c)
  unfolding run_devices
  run_devices-Keeps (DeviceCall.register_device device_id sysvar s t) =
      let at = producer_key rt device_id in
      Ends-follow (register_device rt (d.producers at) device_id sysvar s t) _
        (register_device-fresh rt (d.producers at) device_id sysvar s t)
        (λ p e. gives _ (fresh_record d.producers d.producers at p (AreKept-refl d.producers) e))
  run_devices-Keeps (DeviceCall.claim_device at sysvar s n t) =
      let o = unwrap_or (d.owner_devices (owner_key rt signer)) new_owner in
      Ends-follow (load_producer rt d at) _ (load_producer-some rt d at) (λ p found.
        Ends->>= (claim_device rt p o signer sysvar s n t) _ (λ (q, o') e.
          gives _
            (one_record d at p q found (claim_device-Later rt p o signer sysvar s n t q o' e))))
  run_devices-Keeps (DeviceCall.provision_device at) =
      Ends-follow (load_producer rt d at) _ (load_producer-some rt d at) (λ p found.
        Ends->>= (provision_device p signer) _
          (λ q e. gives _ (one_record d at p q found (provision_device-Later p q signer e))))
  run_devices-Keeps (DeviceCall.activate_device at) =
      run_owned-Keeps rt d signer at activate_device activate_device-Later
  run_devices-Keeps (DeviceCall.quarantine_device at) =
      run_owned-Keeps rt d signer at quarantine_device quarantine_device-Later
  run_devices-Keeps (DeviceCall.maintenance_device at) =
      run_owned-Keeps rt d signer at maintenance_device maintenance_device-Later
  run_devices-Keeps (DeviceCall.release_from_quarantine at) =
      run_owned-Keeps rt d signer at release_from_quarantine release_from_quarantine-Later
  run_devices-Keeps (DeviceCall.revoke_device at with_counter with_vault) =
      Ends-follow (load_producer rt d at) _ (load_producer-some rt d at) (λ p found.
        Ends->>= (if_passed with_counter (d.owner_devices (owner_key rt p.authority))) _ (λ o _.
          Ends->>= (admin with_vault vault) _ (λ a _.
            Ends->>= (revoke_device p o a signer) _ (λ (q, o') e.
              gives _ (one_record d at p q found (revoke_device-Later p q o o' a signer e))))))
  run_devices-Keeps (DeviceCall.rotate_device_key at with_vault account sysvar new_id s n t) =
      let new_at = producer_key rt account in
      Ends-follow (load_producer rt d at) _ (load_producer-some rt d at) (λ p found.
        Ends->>= (admin with_vault vault) _ (λ a _.
          Ends->>=
            (rotate_device_key rt p (d.producers new_at) a signer account sysvar new_id s n t) _
            (λ (q, new) e.
              let (later, vacant) =
                rotate_device_key-Later rt p q new (d.producers new_at) a signer account sysvar
                  new_id s n t e in
              let old = one_record d at p q found later in
              gives _ (fresh_record d.producers _ new_at new old vacant))))
  run_devices-Keeps (DeviceCall.set_device_tier at tier) = Ends->>= (load vault) _ (λ v _.
      Ends-follow (load_producer rt d at) _ (load_producer-some rt d at) (λ p found.
        Ends->>= (set_device_tier rt v.authority p signer tier) _ (λ q e.
          gives _
            (one_record d at p q found (set_device_tier-Later rt v.authority p q signer tier e)))))
  run_devices-Keeps _ = search (Ends->>=, gives, AreKept-refl) depth 10

pub run_profiles-Keeps :
    (rt : Runtime) (derive : List Bytes → Pubkey) (d : Devices) (signer : Pubkey) (c : ProfileCall)
    → Ends (Keeps d) (run_profiles rt derive d signer c)
unfolding run_profiles
run_profiles-Keeps rt derive d signer (ProfileCall.record_production energy_wh t) =
    search (Ends->>=, gives, AreKept-refl)
run_profiles-Keeps rt derive d signer _ = search (Ends->>=, gives, AreKept-refl)

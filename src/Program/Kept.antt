-- ===== src/Program/Kept.antt =====
-- What every handler that writes a device's record leaves as it was.
use enrg.Prelude.{
  ℕ, ◌≤◌, ◌≡◌, ◌⊎◌, inl, inr, refl, sym, ◌∙◌, arith, true, Option, none, some, WhenOn, when_true,
  ok,
}
use enrg.Prelude.Int.{ℤ}
use enrg.Solana.{Pubkey, Bytes, default_key, Runtime}
use enrg.Messages.{OracleReport}
use enrg.Device.{DeviceTier, EnergyProducer, OwnerDevices}
use enrg.Device.Lifecycle.{
  claim_device, provision_device, activate_device, quarantine_device, maintenance_device,
  release_from_quarantine, revoke_device, rotate_device_key, set_device_tier,
}
use enrg.Mint.{MintContext, MintState, Split, mint_energy}
use enrg.Mint.Admission.{admit_sound}
use enrg.Mint.Effects.{mint_energy-IsSettled, roll_month-same}
use enrg.Mint.History.{admitted, nonce_rises}

-- The record `q` of a device comes later than `p`: it is of the same device, its nonce and its
-- energy have not fallen, what was revoked is revoked, and an owner is not replaced.
pub record Later (p q : EnergyProducer) : Type 0 where
  pub same_device : q.device_id ≡ p.device_id
  pub nonce : p.nonce ≤ q.nonce
  pub energy : p.energy_wh ≤ q.energy_wh
  pub final : WhenOn p.revoked (q.revoked ≡ true)
  pub owned : (p.authority ≡ default_key) ⊎ (q.authority ≡ p.authority)

pub Later-refl : (p : EnergyProducer) → Later p p
Later-refl p = record {
  same_device = refl;
  nonce = omega arith;
  energy = omega arith;
  final = when_true p.revoked (λ on. on);
  owned = inr refl;
}

pub Later-trans : (p q r : EnergyProducer) → Later p q → Later q r → Later p r
Later-trans p q r a b =
    let d = a.same_device in
    let e = b.same_device in
    let n = a.nonce in
    let m = b.nonce in
    let x = a.energy in
    let y = b.energy in
    let f = a.final in let g = b.final in let o = a.owned in let w = b.owned in ground arith

pub claim_device-Later :
    (rt : Runtime) (p : EnergyProducer) (o : OwnerDevices) (signer sysvar : Pubkey) (s : Bytes)
    (n : ℕ) (t : ℤ) (q : EnergyProducer) (o' : OwnerDevices)
    → claim_device rt p o signer sysvar s n t ≡ ok (q, o')
    → Later p q
unfolding claim_device
claim_device-Later rt p o signer sysvar s n t q o' h = ground arith

pub provision_device-Later :
    (p q : EnergyProducer) (signer : Pubkey) → provision_device p signer ≡ ok q → Later p q
unfolding provision_device
provision_device-Later p q signer h = ground arith

pub activate_device-Later :
    (p : EnergyProducer) (o : OwnerDevices) (signer : Pubkey) (z : EnergyProducer × OwnerDevices)
    → activate_device p o signer ≡ ok z
    → Later p z.0
unfolding activate_device
activate_device-Later p o signer z h = ground arith

pub quarantine_device-Later :
    (p : EnergyProducer) (o : OwnerDevices) (signer : Pubkey) (z : EnergyProducer × OwnerDevices)
    → quarantine_device p o signer ≡ ok z
    → Later p z.0
unfolding quarantine_device
quarantine_device-Later p o signer z h = ground arith

pub maintenance_device-Later :
    (p : EnergyProducer) (o : OwnerDevices) (signer : Pubkey) (z : EnergyProducer × OwnerDevices)
    → maintenance_device p o signer ≡ ok z
    → Later p z.0
unfolding maintenance_device
maintenance_device-Later p o signer z h = ground arith

pub release_from_quarantine-Later :
    (p : EnergyProducer) (o : OwnerDevices) (signer : Pubkey) (z : EnergyProducer × OwnerDevices)
    → release_from_quarantine p o signer ≡ ok z
    → Later p z.0
unfolding release_from_quarantine
release_from_quarantine-Later p o signer z h = ground arith

pub revoke_device-Later :
    (p q : EnergyProducer) (o o' : Option OwnerDevices) (vault : Option Pubkey) (signer : Pubkey)
    → revoke_device p o vault signer ≡ ok (q, o')
    → Later p q
unfolding revoke_device
revoke_device-Later p q none o' vault signer h = ground arith
revoke_device-Later p q (some o) o' vault signer h = ground arith

-- A new key is given to an address that held nothing.
pub rotate_device_key-Later :
    (rt : Runtime) (p q new : EnergyProducer) (existing : Option EnergyProducer)
    (vault : Option Pubkey) (signer account sysvar new_id : Pubkey) (s : Bytes) (n : ℕ) (t : ℤ)
    → rotate_device_key rt p existing vault signer account sysvar new_id s n t ≡ ok (q, new)
    → Later p q × (existing ≡ none)
unfolding rotate_device_key
rotate_device_key-Later rt p q new none vault signer account sysvar new_id s n t h =
    (ground arith, refl)
rotate_device_key-Later rt p q new (some _) vault signer account sysvar new_id s n t h =
    absurd (ground arith)

pub set_device_tier-Later :
    (rt : Runtime) (vault : Pubkey) (p q : EnergyProducer) (signer : Pubkey) (tier : DeviceTier)
    → set_device_tier rt vault p signer tier ≡ ok q
    → Later p q
unfolding set_device_tier
set_device_tier-Later rt vault p q signer tier h = ground arith

pub mint_energy-Later :
    (rt : Runtime) (c : MintContext) (s : MintState) (r : OracleReport) (z : MintState × Split)
    → mint_energy rt c s r ≡ ok z
    → Later s.producer z.0.producer
mint_energy-Later rt c s r (out, split) h =
    let now = mint_energy-IsSettled rt c s r out split h in
    let (authentic, _, _) = admit_sound rt c s r (admitted rt c s r (out, split) h) in
    let (_, _, _, _, same) = roll_month-same s.producer rt.now in
    record {
      same_device = now.is_same_device;
      nonce = omega (arith, now.is_used, nonce_rises rt c s r (out, split) h);
      energy = omega (arith, now.is_credited);
      final = inl (sym same ∙ authentic.is_live);
      owned = inr now.is_same_owner;
    }

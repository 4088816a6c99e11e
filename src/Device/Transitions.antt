-- ===== src/Device/Transitions.antt =====
-- What a device call does to the state of the device.
use enrg.Prelude.{◌≡◌, ◌≢◌, Bool, true, false, List, [], ◌∷◌, arith, All, Result, ok, err}
use enrg.Solana.{Pubkey, Runtime}
use enrg.Device.{DeviceState, EnergyProducer, OwnerDevices, is_revoked, can_transition_to}
use enrg.Device.Lifecycle.{
  claim_device, provision_device, activate_device, quarantine_device, maintenance_device,
  release_from_quarantine, revoke_device, rotate_device_key, set_device_tier,
}
use enrg.Device.Calls.{
  Call, claim, provision, activate, quarantine, maintenance, release, revoke, rotate, set_tier,
  run_call,
}

-- The calls that revoke a record.
abbrev pub revokes : Call → Bool
revokes (revoke _ _) = true
revokes (rotate _ _ _ _ _ _ _) = true
revokes _ = false

-- The state after a call: the one before, or one that the table of the transitions has an edge to,
-- or that of a revocation of a record that was not revoked.
infix 40 ◌⊢◌⟶◌
pub data ◌⊢◌⟶◌ (c : Call) (s t : DeviceState) : Type 0 where
  keeps : t ≡ s → c ⊢ s ⟶ t
  edge : can_transition_to s t ≡ true → c ⊢ s ⟶ t
  revoked_from : revokes c ≡ true → is_revoked s ≡ false → t ≡ DeviceState.revoked → c ⊢ s ⟶ t

ruleset edges = (keeps, edge, revoked_from)

-- The state of the record at the device's own address.
abbrev pub Follows : Call → DeviceState → Result (List EnergyProducer × OwnerDevices) → Type 0
Follows c s (err _) = Unit
Follows c s (ok ([], o)) = ⊥
Follows c s (ok (p ∷ _, o)) = c ⊢ s ⟶ p.state

-- Whatever device call succeeds on a record, the record's state afterwards is the one before, or
-- one that the table can_transition_to allows after it, or revoked, where the call is a
-- revocation or a rotation of the key and the state before was not revoked.
pub run_call-Follows :
    (rt : Runtime) (signer : Pubkey) (c : Call) (p : EnergyProducer) (o : OwnerDevices)
    → Follows c p.state (run_call rt signer c p o)
unfolding run_call claim_device provision_device activate_device quarantine_device
    maintenance_device release_from_quarantine revoke_device rotate_device_key set_device_tier
    can_transition_to
run_call-Follows rt signer (claim sysvar s n t) p o = grind (arith, edges)
run_call-Follows rt signer provision p o = grind (arith, edges)
run_call-Follows rt signer activate p o = grind (arith, edges)
run_call-Follows rt signer quarantine p o = grind (arith, edges)
run_call-Follows rt signer maintenance p o = grind (arith, edges)
run_call-Follows rt signer release p o = grind (arith, edges)
run_call-Follows rt signer (revoke with_counter vault) p o = grind (arith, edges)
run_call-Follows rt signer (rotate vault account sysvar new_id s n t) p o = grind (arith, edges)
run_call-Follows rt signer (set_tier vault tier) p o = grind (arith, edges)

-- The `revoked` flag of a record says the same as its state.
abbrev pub IsConsistent : EnergyProducer → Type 0
IsConsistent p = is_revoked p.state ≡ p.revoked

abbrev pub AllConsistent : Result (List EnergyProducer × OwnerDevices) → Type 0
AllConsistent (err _) = Unit
AllConsistent (ok (ps, _)) = All IsConsistent ps

-- When the revoked flag of a record says the same as its state, then after any successful device
-- call it does so for every record that the call leaves, that of a new key included.
pub run_call-IsConsistent :
    (rt : Runtime) (signer : Pubkey) (c : Call) (p : EnergyProducer) (o : OwnerDevices)
    → IsConsistent p
    → AllConsistent (run_call rt signer c p o)
unfolding run_call claim_device provision_device activate_device quarantine_device
    maintenance_device release_from_quarantine revoke_device rotate_device_key set_device_tier
run_call-IsConsistent rt signer (claim sysvar s n t) p o h = ground arith
run_call-IsConsistent rt signer provision p o h = ground arith
run_call-IsConsistent rt signer activate p o h = ground arith
run_call-IsConsistent rt signer quarantine p o h = ground arith
run_call-IsConsistent rt signer maintenance p o h = ground arith
run_call-IsConsistent rt signer release p o h = ground arith
run_call-IsConsistent rt signer (revoke true vault) p o h = ground arith
run_call-IsConsistent rt signer (revoke false vault) p o h = ground arith
run_call-IsConsistent rt signer (rotate vault account sysvar new_id s n t) p o h = ground arith
run_call-IsConsistent rt signer (set_tier vault tier) p o h = ground arith

-- The calls that touch more than the tier.
abbrev pub is_lifecycle : Call → Bool
is_lifecycle (set_tier _ _) = false
is_lifecycle (claim _ _ _ _) = true
is_lifecycle _ = true

-- On a record whose revoked flag is set, no call succeeds but the change of the tier.
pub revoked_is_final :
    (rt : Runtime) (signer : Pubkey) (c : Call) (p : EnergyProducer) (o : OwnerDevices)
    (out : List EnergyProducer × OwnerDevices)
    → p.revoked ≡ true
    → is_lifecycle c ≡ true
    → run_call rt signer c p o ≢ ok out
unfolding run_call claim_device provision_device activate_device quarantine_device
    maintenance_device release_from_quarantine revoke_device rotate_device_key set_device_tier
revoked_is_final rt signer (claim sysvar s n t) p o out h l = ground arith
revoked_is_final rt signer provision p o out h l = ground arith
revoked_is_final rt signer activate p o out h l = ground arith
revoked_is_final rt signer quarantine p o out h l = ground arith
revoked_is_final rt signer maintenance p o out h l = ground arith
revoked_is_final rt signer release p o out h l = ground arith
revoked_is_final rt signer (revoke true vault) p o out h l = ground arith
revoked_is_final rt signer (revoke false vault) p o out h l = ground arith
revoked_is_final rt signer (rotate vault account sysvar new_id s n t) p o out h l = ground arith
revoked_is_final rt signer (set_tier vault tier) p o out h l = cc

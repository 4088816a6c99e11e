-- ===== src/Device/Lifecycle.antt =====
-- programs/enrg-mvp/src/instructions/device_lifecycle.rs and tier.rs, handler by handler. An
-- account stands for the one at the address that the handler's seeds derive; `init` of an account
-- that is there already is an error of the framework. Events and logs are left out.
use enrg.Prelude.{
  ℕ, ◌-◌, Bool, true, false, not, ◌||◌, Option, none, some, ltb, ◌==◌, if◌then◌else◌, map_or,
  checked_add, u64_max, Result, ok, err, framework, ErrorCode, require, ok_or, ◌>>=◌, ◌>>◌,
}
use enrg.Prelude.Int.{ℤ, pos, ltb_ℤ, leb_ℤ, add_i64}
use enrg.Constants.{max_clock_skew, max_devices_per_owner, instructions_sysvar_id}
use enrg.Solana.{Pubkey, default_key, Bytes, Runtime}
use enrg.Messages.{to_bytes, device_register_message, device_claim_message, device_rotate_message}
use enrg.Ed25519.{verify_ed25519_signature}
use enrg.Device.{
  DeviceState, is_active, is_registered, is_revoked, can_transition_to, DeviceTier, EnergyProducer,
  OwnerDevices,
}

-- Two addresses differ.
abbrev pub ne : Pubkey → Pubkey → Bool
ne a b = not (a == b)

-- `#[account(init)]`
abbrev pub init_fresh {ℓ} : {A : Type ℓ} → Option A → Result (Unit {0})
init_fresh none = ok tt
init_fresh (some _) = err (framework 0)

-- `t > 0`, and `t` no later than the clock by more than the allowed skew.
abbrev pub check_stamp : Runtime → ℤ → Result (Unit {0})
check_stamp rt t = do
  require (ltb_ℤ (pos 0) t) ErrorCode.invalid_parameter
  latest ← add_i64 rt.now max_clock_skew
  require (leb_ℤ t latest) ErrorCode.future_timestamp

-- The constraint on the `instructions` account.
abbrev pub check_sysvar : Pubkey → Result (Unit {0})
check_sysvar key = require (key == instructions_sysvar_id) ErrorCode.invalid_instructions_account

unfoldable pub register_device :
    Runtime → Option EnergyProducer → Pubkey → Pubkey → Bytes → ℤ → Result EnergyProducer
register_device rt existing device_id instructions device_signature register_timestamp = do
  init_fresh existing
  require (ne device_id default_key) ErrorCode.invalid_parameter
  check_sysvar instructions
  check_stamp rt register_timestamp
  verify_ed25519_signature rt device_signature (to_bytes device_id)
      (device_register_message device_id register_timestamp) instructions
  ok (record {
    authority = default_key;
    device_id = device_id;
    nonce = 0;
    energy_wh = 0;
    timestamp = pos 0;
    state = DeviceState.registered;
    tier = DeviceTier.basic;
    month_energy_wh = 0;
    month_start_ts = pos 0;
    claim_nonce = 0;
    claimed_at = pos 0;
    revoked = false;
    rotated_to = default_key;
  })

-- The first claim of an owner writes the owner into the fresh `OwnerDevices`.
abbrev pub adopt : OwnerDevices → Pubkey → OwnerDevices
adopt o owner =
    if o.owner == default_key
    then record o { owner = owner; total_claimed = 0; active_count = 0 }
    else o

unfoldable pub claim_device :
    Runtime
    → EnergyProducer
    → OwnerDevices
    → Pubkey
    → Pubkey
    → Bytes
    → ℕ
    → ℤ
    → Result (EnergyProducer × OwnerDevices)
claim_device rt p owner_devices authority instructions device_signature claim_nonce
      claim_timestamp =
    do
      require (ne p.device_id default_key) ErrorCode.invalid_parameter
      check_sysvar instructions
      require (not p.revoked) ErrorCode.device_revoked
      require (is_registered p.state) ErrorCode.invalid_device_state
      require (p.authority == default_key) ErrorCode.device_already_claimed
      check_stamp rt claim_timestamp
      require (ltb p.claim_nonce claim_nonce) ErrorCode.invalid_nonce
      verify_ed25519_signature rt device_signature (to_bytes p.device_id)
          (device_claim_message p.device_id authority claim_nonce claim_timestamp) instructions
      let o = adopt owner_devices authority
      require (o.owner == authority) ErrorCode.unauthorized
      require (ltb o.total_claimed max_devices_per_owner) ErrorCode.device_limit_reached
      total ← ok_or (checked_add u64_max o.total_claimed 1) ErrorCode.arithmetic_overflow
      ok (
        record p {
          authority = authority;
          state = DeviceState.claimed;
          claim_nonce = claim_nonce;
          claimed_at = rt.now;
        },
        record o { total_claimed = total },
      )

-- `has_one = authority` and the constraint on `device_id`, which the owner's handlers share.
abbrev pub check_owner : EnergyProducer → Pubkey → Result (Unit {0})
check_owner p authority = do
  require (p.authority == authority) ErrorCode.unauthorized
  require (ne p.device_id default_key) ErrorCode.invalid_parameter

abbrev pub check_counter : OwnerDevices → Pubkey → Result (Unit {0})
check_counter o authority = require (o.owner == authority) ErrorCode.unauthorized

unfoldable pub provision_device : EnergyProducer → Pubkey → Result EnergyProducer
unfolding can_transition_to
provision_device p authority = do
  check_owner p authority
  require (not p.revoked) ErrorCode.device_revoked
  require (can_transition_to p.state DeviceState.provisioned) ErrorCode.invalid_state_transition
  ok (record p { state = DeviceState.provisioned })

unfoldable pub activate_device :
    EnergyProducer → OwnerDevices → Pubkey → Result (EnergyProducer × OwnerDevices)
unfolding can_transition_to
activate_device p o authority = do
  check_owner p authority
  check_counter o authority
  require (not p.revoked) ErrorCode.device_revoked
  require (can_transition_to p.state DeviceState.active) ErrorCode.invalid_state_transition
  require (ltb o.active_count max_devices_per_owner) ErrorCode.device_limit_reached
  count ← ok_or (checked_add u64_max o.active_count 1) ErrorCode.arithmetic_overflow
  ok (record p { state = DeviceState.active }, record o { active_count = count })

-- `saturating_sub(1)` is the subtraction of ℕ.
unfoldable pub quarantine_device :
    EnergyProducer → OwnerDevices → Pubkey → Result (EnergyProducer × OwnerDevices)
unfolding can_transition_to
quarantine_device p o authority = do
  check_owner p authority
  check_counter o authority
  require (not p.revoked) ErrorCode.device_revoked
  require (can_transition_to p.state DeviceState.quarantine) ErrorCode.invalid_state_transition
  ok (record p { state = DeviceState.quarantine }, record o { active_count = o.active_count - 1 })

abbrev pub leave_active : EnergyProducer → OwnerDevices → OwnerDevices
leave_active p o = if is_active p.state then record o { active_count = o.active_count - 1 } else o

unfoldable pub maintenance_device :
    EnergyProducer → OwnerDevices → Pubkey → Result (EnergyProducer × OwnerDevices)
unfolding can_transition_to
maintenance_device p o authority = do
  check_owner p authority
  check_counter o authority
  require (not p.revoked) ErrorCode.device_revoked
  require (can_transition_to p.state DeviceState.maintenance) ErrorCode.invalid_state_transition
  ok (record p { state = DeviceState.maintenance }, leave_active p o)

unfoldable pub release_from_quarantine :
    EnergyProducer → OwnerDevices → Pubkey → Result (EnergyProducer × OwnerDevices)
unfolding can_transition_to
release_from_quarantine p o authority = do
  check_owner p authority
  check_counter o authority
  require (not p.revoked) ErrorCode.device_revoked
  require (can_transition_to p.state DeviceState.active) ErrorCode.invalid_state_transition
  require (ltb o.active_count max_devices_per_owner) ErrorCode.device_limit_reached
  count ← ok_or (checked_add u64_max o.active_count 1) ErrorCode.arithmetic_overflow
  ok (record p { state = DeviceState.active }, record o { active_count = count })

-- The owner, or the administrator of the vault, if the vault's account is passed: `vault` is its
-- `authority`.
abbrev pub is_owner_or_admin : EnergyProducer → Option Pubkey → Pubkey → Bool
is_owner_or_admin p vault authority =
    (p.authority == authority) || map_or vault false (λ admin. admin == authority)

-- The optional `owner_devices` is left as it is when it is not passed.
abbrev pub check_optional_counter : Option OwnerDevices → Pubkey → Result (Unit {0})
check_optional_counter none owner = ok tt
check_optional_counter (some o) owner = require (o.owner == owner) ErrorCode.unauthorized

unfoldable pub revoke_device :
    EnergyProducer
    → Option OwnerDevices
    → Option Pubkey
    → Pubkey
    → Result (EnergyProducer × Option OwnerDevices)
revoke_device p owner_devices vault authority = do
  require (ne p.device_id default_key) ErrorCode.invalid_parameter
  check_optional_counter owner_devices p.authority
  require (not p.revoked) ErrorCode.device_already_revoked
  require (is_owner_or_admin p vault authority) ErrorCode.unauthorized
  require (not (is_revoked p.state)) ErrorCode.device_already_revoked
  ok (
    record p { state = DeviceState.revoked; revoked = true },
    elim owner_devices [ none ↦ none | some o ↦ some (leave_active p o) ],
  )

unfoldable pub rotate_device_key :
    Runtime
    → EnergyProducer
    → Option EnergyProducer
    → Option Pubkey
    → Pubkey
    → Pubkey
    → Pubkey
    → Pubkey
    → Bytes
    → ℕ
    → ℤ
    → Result (EnergyProducer × EnergyProducer)
rotate_device_key rt old existing vault authority new_device_account instructions new_device_id
      device_signature rotate_nonce rotate_timestamp =
    do
      require (ne old.device_id default_key) ErrorCode.invalid_parameter
      require (ne new_device_account default_key) ErrorCode.invalid_parameter
      init_fresh existing
      check_sysvar instructions
      require (not old.revoked) ErrorCode.device_already_revoked
      require (ne old.device_id new_device_id) ErrorCode.invalid_parameter
      require (new_device_account == new_device_id) ErrorCode.invalid_parameter
      require (not (is_revoked old.state)) ErrorCode.device_already_revoked
      require (is_owner_or_admin old vault authority) ErrorCode.unauthorized
      check_stamp rt rotate_timestamp
      require (ltb old.claim_nonce rotate_nonce) ErrorCode.invalid_nonce
      verify_ed25519_signature rt device_signature (to_bytes new_device_id)
          (device_rotate_message new_device_id old.authority rotate_nonce rotate_timestamp)
          instructions
      ok (
        record old { state = DeviceState.revoked; revoked = true; rotated_to = new_device_id },
        record old {
          device_id = new_device_id;
          claim_nonce = rotate_nonce;
          claimed_at = rt.now;
          revoked = false;
          rotated_to = default_key;
        },
      )

-- instructions/tier.rs: `vault` is the authority that `has_one` compares with.
unfoldable pub set_device_tier :
    Runtime → Pubkey → EnergyProducer → Pubkey → DeviceTier → Result EnergyProducer
set_device_tier rt vault p authority tier = do
  require (vault == authority) ErrorCode.unauthorized
  ok (record p { tier = tier; month_energy_wh = 0; month_start_ts = rt.now })

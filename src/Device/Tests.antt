-- ===== src/Device/Tests.antt =====
-- Calls on the device of the samples.
use enrg.Prelude.{◌≡◌, refl, true, [], ◌∷◌, ok, arith}
use enrg.Samples.{a_runtime, a_producer, a_counter}
use enrg.Device.{DeviceState, EnergyProducer, OwnerDevices, can_transition_to}
use enrg.Device.Lifecycle.{quarantine_device, revoke_device}
use enrg.Prelude.{false, none}
use enrg.Device.Calls.{quarantine, revoke, run_call}
use enrg.Device.Transitions.{Follows, run_call-Follows}
use enrg.Device.Fleet.{Fleet, calls, here, next, Steps, IsCounted, Steps-IsCounted}

abbrev quarantined : EnergyProducer
quarantined = record a_producer { state = DeviceState.quarantine }

abbrev revoked_producer : EnergyProducer
revoked_producer = record a_producer { state = DeviceState.revoked; revoked = true }

abbrev emptied : OwnerDevices
emptied = record a_counter { active_count = 0 }

quarantines : run_call a_runtime 11 quarantine a_producer a_counter ≡ ok (quarantined ∷ [], emptied)
unfolding run_call quarantine_device can_transition_to
quarantines = refl

run_call-Follows_example :
    Follows quarantine DeviceState.active (run_call a_runtime 11 quarantine a_producer a_counter)
run_call-Follows_example = run_call-Follows a_runtime 11 quarantine a_producer a_counter

abbrev a_fleet : Fleet
a_fleet = record { devices = a_producer ∷ []; counter = a_counter }

abbrev idle_fleet : Fleet
idle_fleet = record { devices = quarantined ∷ []; counter = emptied }

one_call : Steps a_fleet idle_fleet
one_call = next here (
    calls a_runtime 11 quarantine [] [] (quarantined ∷ []) a_producer a_counter emptied
      (omega arith) quarantines)

a_fleet-IsCounted : IsCounted a_fleet
a_fleet-IsCounted = record {
  counted = omega arith;
  limited = omega arith;
  unowned = λ e. absurd (omega (arith, e));
}

Steps-IsCounted_example : IsCounted idle_fleet
Steps-IsCounted_example = Steps-IsCounted one_call a_fleet-IsCounted

-- A record is revoked before its device ever served, although the table has no such edge.
early_revocation :
    (run_call a_runtime 11
        (revoke false none)
        (record a_producer { state = DeviceState.registered })
        a_counter
      ≡ ok (revoked_producer ∷ [], a_counter))
    × (can_transition_to DeviceState.registered DeviceState.revoked ≡ false)
unfolding run_call revoke_device can_transition_to
early_revocation = (refl, refl)

-- ===== src/Devices/Service/Observed/Transitions.antt =====
-- The events that tell of an observation (backend/src/homeflow/devices/service.py).
use homeflow.Base.{
  ◌≡◌, ◌≢◌, ◌↔◌, ◌⊎◌, refl, ap, Bool, true, false, ◌&&◌, Option, some, List, [], ◌∷◌, ◌++◌, keep,
  arith, if◌then◌else◌,
}
use homeflow.Capabilities.{DeviceKind}
use homeflow.Devices.Models.{
  Availability-discrete, Device, DeviceState, DeviceState-discrete, OptionProgram-discrete,
  OptionTemperature-discrete, ProgramState,
}
use homeflow.Devices.Service.{
  changed, when, is_pool, is_appliance, program_event, pool_events, state_events, transitions,
}
use homeflow.Events.Models.{EventType}

abbrev pub IsAppliance : DeviceKind → Type 0
IsAppliance k = (k ≡ DeviceKind.washing_machine) ⊎ (k ≡ DeviceKind.dishwasher)

-- When an event of each type is due.
abbrev pub Occurs : Device → Device → EventType → Type 0
Occurs before after EventType.device_availability_changed = before.availability ≢ after.availability
Occurs before after EventType.device_state_changed = before.state ≢ after.state
Occurs before after EventType.pool_temperature_changed =
    (after.kind ≡ DeviceKind.pool)
    × (before.state.current_temperature_c ≢ after.state.current_temperature_c)
Occurs before after EventType.pool_target_temperature_changed =
    (after.kind ≡ DeviceKind.pool)
    × (before.state.target_temperature_c ≢ after.state.target_temperature_c)
Occurs before after EventType.appliance_program_started =
    IsAppliance after.kind
    × ((before.state.program ≢ after.state.program)
        × (after.state.program ≡ some ProgramState.running))
Occurs before after EventType.appliance_program_finished =
    IsAppliance after.kind
    × ((before.state.program ≢ after.state.program)
        × (after.state.program ≡ some ProgramState.finished))
Occurs before after _ = ⊥

-- The order in which they are published.
abbrev pub in_order : List EventType
in_order =
    EventType.device_availability_changed ∷ EventType.device_state_changed
    ∷ EventType.pool_temperature_changed ∷ EventType.pool_target_temperature_changed
    ∷ EventType.appliance_program_started ∷ EventType.appliance_program_finished ∷ []

abbrev runs : Option ProgramState → Bool
runs (some ProgramState.running) = true
runs _ = false

abbrev has_finished : Option ProgramState → Bool
has_finished (some ProgramState.finished) = true
has_finished _ = false

abbrev due : Bool → Bool → Bool → Bool → Bool → Bool → Bool → Option ProgramState → EventType → Bool
due a s pool t g appliance p program EventType.device_availability_changed = a
due a s pool t g appliance p program EventType.device_state_changed = s
due a s pool t g appliance p program EventType.pool_temperature_changed = s && (pool && t)
due a s pool t g appliance p program EventType.pool_target_temperature_changed = s && (pool && g)
due a s pool t g appliance p program EventType.appliance_program_started =
    s && (appliance && (p && runs program))
due a s pool t g appliance p program EventType.appliance_program_finished =
    s && (appliance && (p && has_finished program))
due a s pool t g appliance p program _ = false

due-in_order :
    (a s pool t g appliance p : Bool) (program : Option ProgramState)
    → when a EventType.device_availability_changed
        ++ (if s
            then EventType.device_state_changed
              ∷ ((if pool
                    then when t EventType.pool_temperature_changed
                      ++ when g EventType.pool_target_temperature_changed
                    else [])
                  ++ (if appliance && p then program_event program else []))
            else [])
      ≡ keep (due a s pool t g appliance p program) in_order
due-in_order a s pool t g appliance p program = ground arith

changed_iff {ℓ} : {A : Type ℓ} (dec : Discrete A) (a b : A) → (changed dec a b ≡ true) ↔ (a ≢ b)
changed_iff dec a b = go (dec a b)
  where
    go : (d : Dec (a ≡ b)) → (elim d [ yes _ ↦ false | no _ ↦ true ] ≡ true) ↔ (a ≢ b)
    go (yes e) = (λ f. ground arith, λ ne. absurd (ne e))
    go (no ne) = (λ _. ne, λ _. refl)

abbrev pub due_at : Device → Device → EventType → Bool
due_at before after =
    due (changed Availability-discrete before.availability after.availability)
      (changed DeviceState-discrete before.state after.state) (is_pool after.kind)
      (changed OptionTemperature-discrete before.state.current_temperature_c
        after.state.current_temperature_c)
      (changed OptionTemperature-discrete before.state.target_temperature_c
        after.state.target_temperature_c)
      (is_appliance after.kind)
      (changed OptionProgram-discrete before.state.program after.state.program) after.state.program

pub transitions_lem :
    (before after : Device) → transitions before after ≡ keep (due_at before after) in_order
unfolding transitions state_events pool_events
transitions_lem before after =
    due-in_order (changed Availability-discrete before.availability after.availability)
      (changed DeviceState-discrete before.state after.state) (is_pool after.kind)
      (changed OptionTemperature-discrete before.state.current_temperature_c
        after.state.current_temperature_c)
      (changed OptionTemperature-discrete before.state.target_temperature_c
        after.state.target_temperature_c)
      (is_appliance after.kind)
      (changed OptionProgram-discrete before.state.program after.state.program) after.state.program

is_pool_iff : (k : DeviceKind) → (is_pool k ≡ true) ↔ (k ≡ DeviceKind.pool)
is_pool_iff k = ground arith

is_appliance_iff : (k : DeviceKind) → (is_appliance k ≡ true) ↔ IsAppliance k
is_appliance_iff k = ground arith

runs_iff : (p : Option ProgramState) → (runs p ≡ true) ↔ (p ≡ some ProgramState.running)
runs_iff p = ground arith

finished_iff :
    (p : Option ProgramState) → (has_finished p ≡ true) ↔ (p ≡ some ProgramState.finished)
finished_iff p = ground arith

-- A flag for the state, one for the kind of the device and one for a field of the state.
field_iff :
    {P K Q : Type 0} (s k f : Bool)
    → (s ≡ true) ↔ P
    → (k ≡ true) ↔ K
    → (f ≡ true) ↔ Q
    → (Q → P)
    → ((s && (k && f)) ≡ true) ↔ (K × Q)
field_iff true true f sp kk fq up = (λ e. (kk.0 refl, fq.0 e), λ (x, y). fq.1 y)
field_iff true false f sp kk fq up = (λ e. ground arith, λ (x, y). kk.1 x)
field_iff false k f sp kk fq up = (λ e. ground arith, λ (x, y). sp.1 (up y))

both_iff :
    {P Q : Type 0} (a b : Bool) → (a ≡ true) ↔ P → (b ≡ true) ↔ Q → ((a && b) ≡ true) ↔ (P × Q)
both_iff true b p q = (λ e. (p.0 refl, q.0 e), λ (x, y). q.1 y)
both_iff false b p q = (λ e. ground arith, λ (x, y). p.1 x)

module _ (before after : Device) where
  state_iff :
      (changed DeviceState-discrete before.state after.state ≡ true) ↔ (before.state ≢ after.state)
  state_iff = changed_iff DeviceState-discrete before.state after.state

  program_iff :
      (changed OptionProgram-discrete before.state.program after.state.program ≡ true)
      ↔ (before.state.program ≢ after.state.program)
  program_iff = changed_iff OptionProgram-discrete before.state.program after.state.program

  pub due_at_iff : (t : EventType) → (due_at before after t ≡ true) ↔ Occurs before after t
  due_at_iff EventType.device_availability_changed =
      changed_iff Availability-discrete before.availability after.availability
  due_at_iff EventType.device_state_changed = state_iff
  due_at_iff EventType.pool_temperature_changed =
      field_iff (changed DeviceState-discrete before.state after.state) (is_pool after.kind)
        (changed OptionTemperature-discrete before.state.current_temperature_c
          after.state.current_temperature_c)
        state_iff (is_pool_iff after.kind)
        (changed_iff OptionTemperature-discrete before.state.current_temperature_c
          after.state.current_temperature_c)
        (λ ne e. ne (ap (λ (x : DeviceState). x.current_temperature_c) e))
  due_at_iff EventType.pool_target_temperature_changed =
      field_iff (changed DeviceState-discrete before.state after.state) (is_pool after.kind)
        (changed OptionTemperature-discrete before.state.target_temperature_c
          after.state.target_temperature_c)
        state_iff (is_pool_iff after.kind)
        (changed_iff OptionTemperature-discrete before.state.target_temperature_c
          after.state.target_temperature_c)
        (λ ne e. ne (ap (λ (x : DeviceState). x.target_temperature_c) e))
  due_at_iff EventType.appliance_program_started =
      field_iff (changed DeviceState-discrete before.state after.state) (is_appliance after.kind)
        (changed OptionProgram-discrete before.state.program after.state.program
          && runs after.state.program)
        state_iff (is_appliance_iff after.kind)
        (both_iff (changed OptionProgram-discrete before.state.program after.state.program)
          (runs after.state.program) program_iff (runs_iff after.state.program))
        (λ (ne, _) e. ne (ap (λ (x : DeviceState). x.program) e))
  due_at_iff EventType.appliance_program_finished =
      field_iff (changed DeviceState-discrete before.state after.state) (is_appliance after.kind)
        (changed OptionProgram-discrete before.state.program after.state.program
          && has_finished after.state.program)
        state_iff (is_appliance_iff after.kind)
        (both_iff (changed OptionProgram-discrete before.state.program after.state.program)
          (has_finished after.state.program) program_iff (finished_iff after.state.program))
        (λ (ne, _) e. ne (ap (λ (x : DeviceState). x.program) e))
  due_at_iff _ = (λ e. ground arith, λ b. absurd b)

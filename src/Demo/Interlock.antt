-- ===== src/Demo/Interlock.antt =====
-- The interlock of the demo pool.
use homeflow.Base.{
  ℕ, ◌&&◌, ◌||◌, not, ◌≡◌, refl, Bool, true, false, Option, List, [], ◌∷◌, arith, Bool-cases, inl,
  inr, Option-cases, ◌/◌,
}
use homeflow.Base.Int.{ℤ}
use homeflow.Capabilities.{DeviceKind}
use homeflow.Commands.Models.{Action, CommandParams}
use homeflow.Demo.Simulation.{
  is_on, apply_to, pool_at, advance_pool, appliance_at, advance_appliance, advance,
}
use homeflow.Demo.Household.{
  DemoDevice, find_device, change_state, complete, execute, is_offline, tick, build_devices,
}
use homeflow.Devices.Models.{DeviceState, ProgramState}
use homeflow.Integrations.{ProviderCommand, ProviderDeviceRef}

-- A heater that runs has its filter pump running.
abbrev pub is_interlocked : DeviceState → Bool
is_interlocked s = not (is_on s.heater) || is_on s.filter_pump

abbrev pub all_interlocked : List DemoDevice → Bool
all_interlocked [] = true
all_interlocked (d ∷ ds) = is_interlocked d.state && all_interlocked ds

apply_to-interlocked :
    (action : Action) (ps : CommandParams) (s : DeviceState)
    → is_interlocked s ≡ true
    → is_interlocked (apply_to action ps s) ≡ true
unfolding apply_to
apply_to-interlocked action ps s h = ground arith

pool_at-interlocked :
    (time : ℕ) (current : ℤ) (s : DeviceState)
    → is_interlocked s ≡ true
    → is_interlocked (pool_at time current s) ≡ true
pool_at-interlocked time current s h = ground arith

appliance_at-interlocked :
    (seconds : ℕ) (program : Option ProgramState) (remaining : Option ℕ) (s : DeviceState)
    → is_interlocked s ≡ true
    → is_interlocked (appliance_at seconds program remaining s) ≡ true
appliance_at-interlocked seconds program remaining s h = ground arith

advance-interlocked :
    (kind : DeviceKind) (time : ℕ) (s : DeviceState)
    → is_interlocked s ≡ true
    → is_interlocked (advance kind time s) ≡ true
unfolding advance advance_pool advance_appliance
advance-interlocked DeviceKind.pool time s h = elim (Option-cases s.current_temperature_c) [
  | inl e ↦ rw (e, advance_pool) h
  | inr (current, e) ↦ rw (e, advance_pool) (pool_at-interlocked time current s h)
]
advance-interlocked DeviceKind.washing_machine time s h =
    appliance_at-interlocked (time / 1000) s.program s.remaining_seconds s h
advance-interlocked DeviceKind.dishwasher time s h =
    appliance_at-interlocked (time / 1000) s.program s.remaining_seconds s h
advance-interlocked _ time s h = h

change_state-interlocked :
    (ref : ProviderDeviceRef) (f : DeviceState → DeviceState) (ds : List DemoDevice)
    → ((s : DeviceState) → is_interlocked s ≡ true → is_interlocked (f s) ≡ true)
    → all_interlocked ds ≡ true
    → all_interlocked (change_state ref f ds) ≡ true
change_state-interlocked ref f [] k h = refl
change_state-interlocked ref f (d ∷ ds) k h =
    ground (arith, change_state-interlocked ref f ds k, k d.state)

complete-interlocked :
    (fails : Bool) (clock : ℕ) (ref : ProviderDeviceRef) (c : ProviderCommand)
    (ds : List DemoDevice)
    → all_interlocked ds ≡ true
    → all_interlocked (complete fails clock ref c ds).1 ≡ true
complete-interlocked true clock ref c ds h = h
complete-interlocked false clock ref c ds h =
    change_state-interlocked ref (apply_to c.action c.params) ds
      (apply_to-interlocked c.action c.params) h

tick-interlocked :
    (time : ℕ) (ds : List DemoDevice)
    → all_interlocked ds ≡ true
    → all_interlocked (tick time ds) ≡ true
unfolding tick
tick-interlocked time [] h = refl
tick-interlocked time (d ∷ ds) h =
    ground (arith, tick-interlocked time ds, advance-interlocked d.definition.kind time d.state)

execute-interlocked :
    (during : List DemoDevice → List DemoDevice) (fails : Bool) (clock : ℕ)
    (ref : ProviderDeviceRef) (c : ProviderCommand) (ds : List DemoDevice)
    → all_interlocked ds ≡ true
    → all_interlocked (complete fails clock ref c (during ds)).1 ≡ true
    → all_interlocked (execute during fails clock ref c ds).1 ≡ true
unfolding execute
execute-interlocked during fails clock ref c ds k later = elim (Option-cases (find_device ref ds)) [
  | inl e ↦ rw (e, execute) k
  | inr (d, e) ↦ elim (Bool-cases (is_offline d.availability)) [
    | inl o ↦ rw (e, o, execute) k
    | inr o ↦ rw (e, o, execute) later
  ]
]

-- What happens to the household: time passes, or a command is executed while other things happen in
-- its latency.
mutual
  pub data Happening : Type 0 where
    ticked : ℕ → Happening
    asked : Happenings → Bool → ℕ → ProviderDeviceRef → ProviderCommand → Happening

  pub data Happenings : Type 0 where
    done : Happenings
    first : Happening → Happenings → Happenings

unfoldable mutual
  pub happen : Happening → List DemoDevice → List DemoDevice
  happen (ticked time) ds = tick time ds
  happen (asked meanwhile fails clock ref c) ds =
      (execute (happen_all meanwhile) fails clock ref c ds).1

  pub happen_all : Happenings → List DemoDevice → List DemoDevice
  happen_all done ds = ds
  happen_all (first h hs) ds = happen_all hs (happen h ds)

mutual
  unfolding happen happen_all

  happen-interlocked :
      (h : Happening) (ds : List DemoDevice)
      → all_interlocked ds ≡ true
      → all_interlocked (happen h ds) ≡ true
  happen-interlocked (ticked time) ds k = tick-interlocked time ds k
  happen-interlocked (asked meanwhile fails clock ref c) ds k =
      let later =
        complete-interlocked fails clock ref c (happen_all meanwhile ds)
          (happen_all-interlocked meanwhile ds k) in
      execute-interlocked (happen_all meanwhile) fails clock ref c ds k later

  happen_all-interlocked :
      (hs : Happenings) (ds : List DemoDevice)
      → all_interlocked ds ≡ true
      → all_interlocked (happen_all hs ds) ≡ true
  happen_all-interlocked done ds k = k
  happen_all-interlocked (first h hs) ds k =
      happen_all-interlocked hs (happen h ds) (happen-interlocked h ds k)

-- Whatever commands the demo household is given, also while others wait for their answers, and however
-- time passes, at no point does a heater run without its filter pump.
pub household_interlocked : (hs : Happenings) → all_interlocked (happen_all hs build_devices) ≡ true
household_interlocked hs = happen_all-interlocked hs build_devices refl

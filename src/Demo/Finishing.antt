-- ===== src/Demo/Finishing.antt =====
-- How an appliance of the demo household comes to its end.
use homeflow.Base.{
  ℕ, zero, suc, ◌-◌, ◌*◌, ◌/◌, ◌+◌, ◌<◌, ◌≡◌, ◌⊎◌, ◌∙◌, refl, ap, Bool, true, false, some, arith,
  inl, inr, leb, if◌then◌else◌,
}
use homeflow.Capabilities.{DeviceKind}
use homeflow.Demo.Simulation.{advance, advance_appliance, appliance_at}
use homeflow.Demo.Household.{DemoDevice, is_offline, tick_device}
use homeflow.Devices.Models.{DeviceState, ProgramState}

-- A device after so many ticks of one simulated time.
unfoldable pub after_ticks : ℕ → ℕ → DemoDevice → DemoDevice
after_ticks zero time d = d
after_ticks (suc n) time d = after_ticks n time (tick_device time d)

abbrev pub runs_program : DeviceKind → Bool
runs_program DeviceKind.washing_machine = true
runs_program DeviceKind.dishwasher = true
runs_program _ = false

abbrev pub program_at : ℕ → ℕ → ProgramState
program_at remaining elapsed =
    if leb remaining elapsed then ProgramState.finished else ProgramState.running

-- A device that is reached shows this program and this time left.
abbrev pub Shows : ProgramState → ℕ → DemoDevice → Type 0
Shows program remaining d =
    (is_offline d.availability ≡ false)
    × (runs_program d.definition.kind ≡ true)
    × (d.state.program ≡ some program)
    × (d.state.remaining_seconds ≡ some remaining)

advance-appliance :
    (kind : DeviceKind) (time : ℕ) (s : DeviceState)
    → runs_program kind ≡ true
    → advance kind time s ≡ appliance_at (time / 1000) s.program s.remaining_seconds s
unfolding advance advance_appliance
advance-appliance DeviceKind.washing_machine time s h = refl
advance-appliance DeviceKind.dishwasher time s h = refl
advance-appliance kind time s h = ground arith

ticked-state :
    (time : ℕ) (d : DemoDevice)
    → is_offline d.availability ≡ false
    → runs_program d.definition.kind ≡ true
    → (tick_device time d).state
      ≡ appliance_at (time / 1000) d.state.program d.state.remaining_seconds d.state
ticked-state time d o k = rw o (advance-appliance d.definition.kind time d.state k)

ticked-availability :
    (time : ℕ) (d : DemoDevice) → (tick_device time d).availability ≡ d.availability
ticked-availability time d = ground arith

ticked-kind : (time : ℕ) (d : DemoDevice) → (tick_device time d).definition.kind ≡ d.definition.kind
ticked-kind time d = ground arith

appliance_at-running :
    (seconds remaining : ℕ) (s : DeviceState)
    → s.program ≡ some ProgramState.running
    → s.remaining_seconds ≡ some remaining
    → 0 < remaining - seconds
    → ((appliance_at seconds s.program s.remaining_seconds s).program ≡ some ProgramState.running)
      × ((appliance_at seconds s.program s.remaining_seconds s).remaining_seconds
          ≡ some (remaining - seconds))
appliance_at-running seconds remaining s p r more = ground arith

appliance_at-finished :
    (seconds remaining : ℕ) (s : DeviceState)
    → s.program ≡ some ProgramState.running
    → s.remaining_seconds ≡ some remaining
    → 0 < remaining
    → remaining - seconds ≡ 0
    → ((appliance_at seconds s.program s.remaining_seconds s).program ≡ some ProgramState.finished)
      × ((appliance_at seconds s.program s.remaining_seconds s).remaining_seconds ≡ some 0)
appliance_at-finished seconds remaining s p r more e = ground arith

ticked-Shows :
    (time : ℕ) (program program' : ProgramState) (remaining remaining' : ℕ) (d : DemoDevice)
    → Shows program remaining d
    → ((appliance_at (time / 1000) d.state.program d.state.remaining_seconds d.state).program
        ≡ some program')
    → ((appliance_at
          (time / 1000)
          d.state.program
          d.state.remaining_seconds
          d.state).remaining_seconds
        ≡ some remaining')
    → Shows program' remaining' (tick_device time d)
ticked-Shows time program program' remaining remaining' d (o, k, p, r) p' r' = (
  rw (ticked-availability time d) o,
  rw (ticked-kind time d) k,
  rw (ticked-state time d o k) p',
  rw (ticked-state time d o k) r',
)

appliance_at-kept :
    (seconds : ℕ) (s : DeviceState)
    → s.program ≡ some ProgramState.finished
    → appliance_at seconds s.program s.remaining_seconds s ≡ s
appliance_at-kept seconds s p = ground arith

finished-kept :
    (n time : ℕ) (d : DemoDevice)
    → Shows ProgramState.finished 0 d
    → Shows ProgramState.finished 0 (after_ticks n time d)
unfolding after_ticks
finished-kept zero time d h = h
finished-kept (suc n) time d h =
    let (_, _, p, r) = h in
    let same = appliance_at-kept (time / 1000) d.state p in
    finished-kept n time (tick_device time d) (
      ticked-Shows time ProgramState.finished ProgramState.finished 0 0 d h
        (ap (λ s. s.program) same ∙ p) (ap (λ s. s.remaining_seconds) same ∙ r))

zero-cases : (n : ℕ) → (n ≡ 0) ⊎ (0 < n)
zero-cases zero = inl refl
zero-cases (suc n) = inr (omega arith)

times-suc : (n seconds : ℕ) → suc n * seconds ≡ seconds + n * seconds
times-suc n seconds = omega arith

minus-plus : (a b c : ℕ) → a - (b + c) ≡ (a - b) - c
minus-plus a b c = omega arith

program_at-plus :
    (remaining seconds elapsed : ℕ)
    → 0 < remaining - seconds
    → program_at remaining (seconds + elapsed) ≡ program_at (remaining - seconds) elapsed
program_at-plus remaining seconds elapsed left = ground arith

program_at-reached :
    (remaining seconds elapsed : ℕ)
    → remaining - seconds ≡ 0
    → program_at remaining (seconds + elapsed) ≡ ProgramState.finished
program_at-reached remaining seconds elapsed e = ground arith

program_at-zero :
    (remaining seconds : ℕ)
    → 0 < remaining
    → program_at remaining (0 * seconds) ≡ ProgramState.running
program_at-zero remaining seconds more = ground arith

minus-zero : (remaining seconds : ℕ) → remaining - 0 * seconds ≡ remaining
minus-zero remaining seconds = omega arith

minus-reached : (a b c : ℕ) → a - b ≡ 0 → a - (b + c) ≡ 0
minus-reached a b c e = omega arith

-- An appliance that is reached and whose program runs with time left shows, after any number of ticks
-- of one length, the time that was left less the whole seconds of those ticks, and is finished exactly
-- when they reach what was left.
pub after_ticks-finishes :
    (n time remaining : ℕ) (d : DemoDevice)
    → Shows ProgramState.running remaining d
    → 0 < remaining
    → Shows
        (program_at remaining (n * (time / 1000)))
        (remaining - n * (time / 1000))
        (after_ticks n time d)
unfolding after_ticks
after_ticks-finishes zero time remaining d h more =
    rw (program_at-zero remaining (time / 1000) more, minus-zero remaining (time / 1000)) h
after_ticks-finishes (suc n) time remaining d h more =
    let (_, _, p, r) = h in
    rw (times-suc n (time / 1000)) (elim (zero-cases (remaining - time / 1000)) [
      | inl e ↦
          let (p', r') = appliance_at-finished (time / 1000) remaining d.state p r more e in
          rw
            (
              program_at-reached remaining (time / 1000) (n * (time / 1000)) e,
              minus-reached remaining (time / 1000) (n * (time / 1000)) e,
            )
            (finished-kept n time (tick_device time d)
              (ticked-Shows time ProgramState.running ProgramState.finished remaining 0 d h p' r'))
      | inr left ↦
          let (p', r') = appliance_at-running (time / 1000) remaining d.state p r left in
          rw
            (
              program_at-plus remaining (time / 1000) (n * (time / 1000)) left,
              minus-plus remaining (time / 1000) (n * (time / 1000)),
            )
            (after_ticks-finishes n time (remaining - time / 1000) (tick_device time d)
              (ticked-Shows time ProgramState.running ProgramState.running remaining
                (remaining - time / 1000) d h p' r')
              left)
    ])

-- ===== src/Devices/Service/Observed/Merging.antt =====
-- The device after an observation (backend/src/homeflow/devices/service.py,
-- backend/src/homeflow/devices/models.py).
use homeflow.Base.{
  ℕ, ◌≡◌, ◌≢◌, ◌↔◌, refl, Bool, true, false, ◌&&◌, not, Option, none, some, arith, if◌then◌else◌,
}
use homeflow.Devices.Models.{Availability, Device, DeviceState, StateSource, merged_with, overlay}
use homeflow.Devices.Registry.{updated}
use homeflow.Devices.Service.{is_set, carried, with_derived}
use homeflow.Devices.Service.Frame.{observed}
use homeflow.Integrations.{ProviderState}

-- A field after an observation: the reported value where one is reported, and the old one elsewhere.
abbrev pub Merges : {A : Type 0} → Option A → Option A → Option A → Type 0
Merges {A} old seen after = ((v : A) → seen ≡ some v → after ≡ some v) × (seen ≡ none → after ≡ old)

-- The pump is seen to run where it was not known to.
abbrev pub PumpStarts : DeviceState → DeviceState → Type 0
PumpStarts before seen = (seen.filter_pump ≡ some true) × (before.filter_pump ≢ some true)

pub record IsMerged (now : ℕ) (before seen after : DeviceState) : Type 0 where
  pub power : Merges before.power seen.power after.power
  pub brightness : Merges before.brightness seen.brightness after.brightness
  pub current_temperature_c :
      Merges before.current_temperature_c seen.current_temperature_c after.current_temperature_c
  pub target_temperature_c :
      Merges before.target_temperature_c seen.target_temperature_c after.target_temperature_c
  pub heater : Merges before.heater seen.heater after.heater
  pub filter_pump : Merges before.filter_pump seen.filter_pump after.filter_pump
  pub bubbles : Merges before.bubbles seen.bubbles after.bubbles
  pub control_panel_lock :
      Merges before.control_panel_lock seen.control_panel_lock after.control_panel_lock
  pub lock_state : Merges before.lock_state seen.lock_state after.lock_state
  pub volume : Merges before.volume seen.volume after.volume
  pub playback : Merges before.playback seen.playback after.playback
  pub program : Merges before.program seen.program after.program
  pub program_name : Merges before.program_name seen.program_name after.program_name
  pub remaining_seconds :
      Merges before.remaining_seconds seen.remaining_seconds after.remaining_seconds
  pub started : PumpStarts before seen → after.filter_last_started_at ≡ some now
  pub not_started :
      ¬ PumpStarts before seen
      → Merges before.filter_last_started_at seen.filter_last_started_at
          after.filter_last_started_at

merge : {A : Type 0} → (old seen : Option A) → Merges old seen (overlay old seen)
merge old none = (λ v e. ground arith, λ e. refl)
merge old (some w) = (λ v e. e, λ e. ground arith)

abbrev started_at : ℕ → DeviceState → DeviceState
started_at now seen = record seen { filter_last_started_at = some now }

abbrev kept_at : Device → DeviceState → DeviceState
kept_at before seen = record seen {
  filter_last_started_at = carried before.state.filter_last_started_at seen.filter_last_started_at;
}

pump_starts :
    (before seen : Option Bool)
    → ((is_set seen && not (is_set before)) ≡ true) ↔ ((seen ≡ some true) × (before ≢ some true))
pump_starts before seen = ground arith

merge_carried : (old seen : Option ℕ) → Merges old seen (overlay old (carried old seen))
merge_carried none none = (λ v e. ground arith, λ e. refl)
merge_carried (some t) none = (λ v e. ground arith, λ e. refl)
merge_carried none (some t) = (λ v e. e, λ e. ground arith)
merge_carried (some u) (some t) = (λ v e. e, λ e. ground arith)

started-IsMerged :
    (now : ℕ) (before : Device) (seen : DeviceState)
    → PumpStarts before.state seen
    → IsMerged now before.state seen (merged_with before.state (started_at now seen))
unfolding merged_with
started-IsMerged now before seen h = record {
  power = merge before.state.power seen.power;
  brightness = merge before.state.brightness seen.brightness;
  current_temperature_c = merge before.state.current_temperature_c seen.current_temperature_c;
  target_temperature_c = merge before.state.target_temperature_c seen.target_temperature_c;
  heater = merge before.state.heater seen.heater;
  filter_pump = merge before.state.filter_pump seen.filter_pump;
  bubbles = merge before.state.bubbles seen.bubbles;
  control_panel_lock = merge before.state.control_panel_lock seen.control_panel_lock;
  lock_state = merge before.state.lock_state seen.lock_state;
  volume = merge before.state.volume seen.volume;
  playback = merge before.state.playback seen.playback;
  program = merge before.state.program seen.program;
  program_name = merge before.state.program_name seen.program_name;
  remaining_seconds = merge before.state.remaining_seconds seen.remaining_seconds;
  started = λ _. refl;
  not_started = λ no. absurd (no h);
}

kept-IsMerged :
    (now : ℕ) (before : Device) (seen : DeviceState)
    → ¬ PumpStarts before.state seen
    → IsMerged now before.state seen (merged_with before.state (kept_at before seen))
unfolding merged_with
kept-IsMerged now before seen h = record {
  power = merge before.state.power seen.power;
  brightness = merge before.state.brightness seen.brightness;
  current_temperature_c = merge before.state.current_temperature_c seen.current_temperature_c;
  target_temperature_c = merge before.state.target_temperature_c seen.target_temperature_c;
  heater = merge before.state.heater seen.heater;
  filter_pump = merge before.state.filter_pump seen.filter_pump;
  bubbles = merge before.state.bubbles seen.bubbles;
  control_panel_lock = merge before.state.control_panel_lock seen.control_panel_lock;
  lock_state = merge before.state.lock_state seen.lock_state;
  volume = merge before.state.volume seen.volume;
  playback = merge before.state.playback seen.playback;
  program = merge before.state.program seen.program;
  program_name = merge before.state.program_name seen.program_name;
  remaining_seconds = merge before.state.remaining_seconds seen.remaining_seconds;
  started = λ yes_. absurd (h yes_);
  not_started = λ _. merge_carried before.state.filter_last_started_at seen.filter_last_started_at;
}

derived-IsMerged :
    (now : ℕ) (before : Device) (seen : DeviceState)
    → IsMerged now before.state seen (merged_with before.state (with_derived now before seen))
unfolding with_derived
derived-IsMerged now before seen =
    let starts = pump_starts before.state.filter_pump seen.filter_pump in
    go (is_set seen.filter_pump && not (is_set before.state.filter_pump)) starts.0 starts.1
  where
    go :
        (b : Bool)
        → (b ≡ true → PumpStarts before.state seen)
        → (PumpStarts before.state seen → b ≡ true)
        → IsMerged now before.state seen
            (merged_with before.state (if b then started_at now seen else kept_at before seen))
    go true starts back = started-IsMerged now before seen (starts refl)
    go false starts back = kept-IsMerged now before seen (λ h. ground (arith, back h))

-- The device after an observation: what is merged, what is replaced, and what stays.
pub record IsAfter (now : ℕ) (before : Device) (s : ProviderState) (source : StateSource)
    (after : Device) : Type 0 where
  pub merged : IsMerged now before.state s.state after.state
  pub availability : after.availability ≡ s.availability
  pub source_of : after.state_source ≡ source
  pub reached :
      s.availability ≡ Availability.online
      → (after.state_observed_at ≡ s.observed_at) × (after.last_seen_at ≡ s.observed_at)
  pub not_reached :
      s.availability ≢ Availability.online
      → (after.state_observed_at ≡ before.state_observed_at)
        × (after.last_seen_at ≡ before.last_seen_at)
  pub same_device : after ≡ record before {
    state = after.state;
    availability = after.availability;
    state_observed_at = after.state_observed_at;
    last_seen_at = after.last_seen_at;
    state_source = after.state_source;
  }

pub observed-IsAfter :
    (now : ℕ) (before : Device) (s : ProviderState) (source : StateSource)
    → IsAfter now before s source (observed now before s source)
unfolding updated
observed-IsAfter now before s source = record {
  merged = derived-IsMerged now before s.state;
  availability = refl;
  source_of = refl;
  reached = λ e. ground arith;
  not_reached = λ e. ground arith;
  same_device = refl;
}

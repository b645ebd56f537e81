-- ===== src/Devices/Service/Observed.antt =====
-- What an observation of a known device returns, stores and publishes
-- (backend/src/homeflow/devices/service.py).
pub mod Merging
pub mod Transitions
use homeflow.Base.{
  ℕ, ◌≡◌, ◌≢◌, ◌↔◌, ◌⊎◌, inl, inr, refl, sym, ap, Bool, true, false, ◌&&◌, not, Option, none, some,
  List, [], ◌∷◌, ◌++◌, map, keep, String, arith, if◌then◌else◌,
}
use homeflow.Base.Dict.{lookup, insert}
use homeflow.Capabilities.{DeviceKind}
use homeflow.Devices.Models.{
  Availability, Availability-discrete, Device, DeviceState, DeviceState-discrete,
  OptionProgram-discrete, OptionTemperature-discrete, ProgramState, StateSource, merged_with,
  overlay,
}
use homeflow.Devices.Registry.{id_for_ref, updated}
use homeflow.Devices.Service.{
  changed, when, is_set, carried, is_pool, is_appliance, program_event, pool_events, state_events,
  transitions, with_derived, device_event, ingest,
}
use homeflow.Devices.Service.Frame.{observed, after_ingest, ingest_lem}
use homeflow.Errors.{Result, ok}
use homeflow.Events.Models.{DomainEvent, EventType, Payload}
use homeflow.Gateway.{Gateway}
use homeflow.Integrations.{ProviderDeviceRef, ProviderState}
use homeflow.Devices.Service.Observed.Merging.{IsAfter, observed-IsAfter}
use homeflow.Devices.Service.Observed.Transitions.{
  Occurs, in_order, due_at, transitions_lem, due_at_iff,
}

-- The event of a type about a device.
abbrev pub told : Device → Option String → ℕ → EventType → DomainEvent
told after c now t = record {
  type = t;
  occurred_at = now;
  device_id = some after.id;
  command_id = none;
  correlation_id = c;
  payload = Payload.empty;
}

-- What an observation of a device that was `before` returns and leaves.
abbrev pub Ingests :
    ℕ
    → Device
    → ProviderState
    → StateSource
    → Option String
    → Gateway
    → Result (Option Device) × Gateway
    → Type 0
Ingests i before s source c g out =
    (after : Device) × (is_due : EventType → Bool) × (out.0 ≡ ok (some after))
    × IsAfter g.clock before s source after
    × ((t : EventType) → (is_due t ≡ true) ↔ Occurs before after t)
    × (out.1 ≡ record g {
      registry = record g.registry { devices = insert i after g.registry.devices };
      published = g.published ++ map (told after c g.clock) (keep is_due in_order);
    })

-- An observation through a handle of a device that the registry holds: the device that is returned
-- has every reported field, and the old value of every other; the start of its pump is noted when the
-- pump is seen to run and was not known to; the time of the observation is noted when the device was
-- reached. It is stored in the place of the old one. An event is published for the availability, the
-- state, the two temperatures of a pool, and the start and the end of an appliance's program exactly
-- where they change, in this order and at one moment, and nothing else changes.
pub ingest-Ingests :
    (ref : ProviderDeviceRef) (s : ProviderState) (source : StateSource) (c : Option String)
    (g : Gateway) (i : ℕ) (before : Device)
    → id_for_ref g.registry ref ≡ some i
    → lookup i g.registry.devices ≡ some before
    → Ingests i before s source c g (ingest ref s source c g)
ingest-Ingests ref s source c g i before e h =
    let after = observed g.clock before s source in
    rw (ingest_lem ref s source c g i before e h) (
      after,
      due_at before after,
      refl,
      observed-IsAfter g.clock before s source,
      due_at_iff before after,
      ap
          (λ (ts : List EventType). record g {
            registry = record g.registry { devices = insert i after g.registry.devices };
            published = g.published ++ map (told after c g.clock) ts;
          })
          (transitions_lem before after),
    )

-- ===== src/Devices/Service/Frame.antt =====
-- What `ingest` leaves alone, and the events that it publishes.
use mathlib.Core.List.{append-nil, append_assoc}
use homeflow.Base.{ℕ, ◌≡◌, Option, none, some, List, [], ◌∷◌, ◌++◌, map, String, arith}
use homeflow.Base.Dict.{lookup, insert}
use homeflow.Devices.Models.{Device, StateSource}
use homeflow.Devices.Registry.{require, id_for_ref, apply, updated}
use homeflow.Devices.Service.{with_derived, transitions, device_event, emit_all, ingest}
use homeflow.Errors.{ok}
use homeflow.Events.Models.{EventType}
use homeflow.Gateway.{Gateway}
use homeflow.Integrations.{ProviderDeviceRef, ProviderState}

pub emit_all_lem :
    (d : Device) (c : Option String) (ts : List EventType) (g : Gateway)
    → emit_all d c ts g
      ≡ (ok tt, record g { published = g.published ++ map (device_event d c g.clock) ts })
unfolding emit_all
emit_all_lem d c [] g = rw (append-nil g.published)
emit_all_lem d c (t ∷ ts) g =
    rw (emit_all_lem d c ts _, append_assoc g.published (device_event d c g.clock t ∷ []))

-- The device after an observation.
abbrev pub observed : ℕ → Device → ProviderState → StateSource → Device
observed now before s source =
    updated before (with_derived now before s.state) s.availability s.observed_at source

-- The gateway after an observation of a device that it knows.
abbrev pub after_ingest :
    ℕ → Device → ProviderState → StateSource → Option String → Gateway → Gateway
after_ingest i before s source c g =
    let after = observed g.clock before s source in
    record g {
      registry = record g.registry { devices = insert i after g.registry.devices };
      published = g.published ++ map (device_event after c g.clock) (transitions before after);
    }

-- An observation of an unknown device changes nothing and publishes nothing.
pub ingest_unknown :
    (ref : ProviderDeviceRef) (s : ProviderState) (source : StateSource) (c : Option String)
    (g : Gateway)
    → id_for_ref g.registry ref ≡ none
    → ingest ref s source c g ≡ (ok none, g)
unfolding ingest
ingest_unknown ref s source c g e = ground arith

-- An observation through a handle of a device that the registry holds returns the device with the
-- observed state merged in, stores it in the place of the old one, publishes one event for each
-- transition, in order and at one moment, and changes nothing else.
pub ingest_lem :
    (ref : ProviderDeviceRef) (s : ProviderState) (source : StateSource) (c : Option String)
    (g : Gateway) (i : ℕ) (before : Device)
    → id_for_ref g.registry ref ≡ some i
    → lookup i g.registry.devices ≡ some before
    → ingest ref s source c g
      ≡ (ok (some (observed g.clock before s source)), after_ingest i before s source c g)
unfolding ingest require apply
ingest_lem ref s source c g i before e h = ground (
  arith,
  emit_all_lem (observed g.clock before s source) c
      (transitions before (observed g.clock before s source))
      (record g {
        registry = record g.registry {
          devices = insert i (observed g.clock before s source) g.registry.devices;
        };
      }),
)

-- ===== src/HomeAssistant/Provider.antt =====
-- The adapter (backend/src/homeflow/integrations/home_assistant/provider.py). What Home Assistant answers
-- is a script that the adapter's state holds: the next replies to a service call and to a read of one
-- entity. A call past the script is not answered. `code` numbers the entity ids as the references do.
use homeflow.Base.{
  ℕ, zero, suc, Bool, true, false, ◌&&◌, Option, none, some, List, [], ◌∷◌, ◌++◌, String, ◌==◌,
  if◌then◌else◌,
}
use homeflow.Base.Dict.{Dict, lookup, insert}
use homeflow.Base.Int.{ℤ}
use homeflow.Capabilities.{Capability, Capability-discrete, DeviceKind}
use homeflow.Commands.Models.{Action, CommandParams, PlaybackCommand}
use homeflow.Devices.Models.{DeviceState, unreported}
use homeflow.HomeAssistant.Entities.{
  EntityId, HaEntity, Mapping, is_one_of, releasable_domains, describe, availability, display_name,
}
use homeflow.HomeAssistant.States.{normalise}
use homeflow.Integrations.{ProviderDevice, ProviderDeviceRef, ProviderState}
use homeflow.Integrations.Flow.{Failure, Outcome, returned, failed, Flow, returns, ◌>>=◌, or_fail}

-- The data of a service call beside the entity id; the volume level is counted in hundredths.
pub data ServiceData : Type 0 where
  no_data : ServiceData
  brightness_pct : ℕ → ServiceData
  volume_level : ℕ → ServiceData
  temperature : ℤ → ServiceData

-- A service call as Home Assistant gets it.
pub record ServiceCall : Type 0 where
  pub domain : String
  pub service : String
  pub entity_id : EntityId
  pub content : ServiceData

-- `_Call`
pub record Call : Type 0 where
  pub service : String
  pub content : ServiceData
  pub expected : DeviceState

-- `HomeAssistantProvider`: what changes, and what Home Assistant does next.
pub record HaAdapter : Type 0 where
  pub kinds : Dict (EntityId × DeviceKind)
  pub calls : List ServiceCall
  pub service_replies : List (Outcome (List HaEntity))
  pub state_replies : List (Outcome HaEntity)
  pub clock : ℕ

-- What it is built with, `float` of a text, and the numbers of its own name and of the entity ids.
pub record HaSetup : Type 0 where
  pub released_domains : List String
  pub confirm_attempts : ℕ
  pub read_float : String → Option ℤ
  pub provider_name : ℕ
  pub code : EntityId → ℕ

abbrev pub Work : Type 0 → Type 0
Work A = Flow HaAdapter A

abbrev pub is_released : HaSetup → String → Bool
is_released s domain = is_one_of domain s.released_domains && is_one_of domain releasable_domains

-- Membership of a capability, and the capabilities that are not among some others.
abbrev pub has_capability : Capability → List Capability → Bool
has_capability c [] = false
has_capability c (d ∷ ds) = elim (Capability-discrete c d) [
  | yes _ ↦ true
  | no _ ↦ has_capability c ds
]

abbrev pub without : List Capability → List Capability → List Capability
without [] writable = []
without (c ∷ cs) writable =
    if has_capability c writable then without cs writable else c ∷ without cs writable

abbrev pub offered : Bool → Mapping → List Capability
offered released mapping =
    if released then mapping.capabilities else without mapping.capabilities mapping.writable

abbrev pub ref_for : HaSetup → EntityId → ProviderDeviceRef
ref_for s id = record { provider = s.provider_name; provider_device_id = s.code id }

abbrev pub to_device : HaSetup → (EntityId → Option String) → HaEntity → Mapping → ProviderDevice
to_device s rooms entity mapping = record {
  ref = ref_for s entity.entity_id;
  suggested_name = display_name entity;
  kind = mapping.kind;
  capabilities = offered (is_released s entity.entity_id.domain) mapping;
  room_hint = rooms entity.entity_id;
  constraints = mapping.constraints;
}

-- One entity of `discover_devices`.
abbrev pub discover_one :
    HaSetup
    → (EntityId → Option String)
    → HaEntity
    → Option Mapping
    → HaAdapter
    → List ProviderDevice × HaAdapter
discover_one s rooms entity none p = ([], p)
discover_one s rooms entity (some mapping) p = (
  to_device s rooms entity mapping ∷ [],
  record p { kinds = insert (s.code entity.entity_id) (entity.entity_id, mapping.kind) p.kinds },
)

-- Its loop.
unfoldable pub discover_all :
    HaSetup
    → (EntityId → Option String)
    → List HaEntity
    → HaAdapter
    → List ProviderDevice × HaAdapter
discover_all s rooms [] p = ([], p)
discover_all s rooms (entity ∷ entities) p =
    let (found, p') = discover_one s rooms entity (describe entity) p in
    let (rest, p'') = discover_all s rooms entities p' in (found ++ rest, p'')

-- `discover_devices`, with what `states` and `rooms` give.
unfoldable pub discover_devices :
    HaSetup
    → Outcome (List HaEntity)
    → Outcome (EntityId → Option String)
    → Flow HaAdapter (List ProviderDevice)
discover_devices s (failed e) rooms p = (failed e, p)
discover_devices s (returned entities) (failed e) p = (failed e, p)
discover_devices s (returned entities) (returned rooms) p =
    let (found, p') = discover_all s rooms entities (record p { kinds = [] }) in
    (returned found, p')

-- `_entity_id`, with the kind that it has.
unfoldable pub entity_of : HaSetup → ProviderDeviceRef → Work (EntityId × DeviceKind)
entity_of s ref p =
    if ref.provider == s.provider_name
    then or_fail (lookup ref.provider_device_id p.kinds) Failure.unavailable p
    else (failed Failure.unavailable, p)

-- `self._kinds.get(entity.entity_id, DeviceKind.SENSOR)`
abbrev pub kind_or_sensor : Option (EntityId × DeviceKind) → DeviceKind
kind_or_sensor none = DeviceKind.sensor
kind_or_sensor (some (_, kind)) = kind

-- `_snapshot`
unfoldable pub snapshot : HaSetup → HaEntity → Work ProviderState
snapshot s entity p =
    let kind = kind_or_sensor (lookup (s.code entity.entity_id) p.kinds) in
    (or_fail (normalise s.read_float entity kind) Failure.validation_error >>= λ state.
    returns (record { state = state; availability = availability entity; observed_at = p.clock }))
      p

-- `client.call_service`: the call is sent, and answered as the script says.
abbrev pub take_service : List (Outcome (List HaEntity)) → Work (List HaEntity)
take_service [] p = (failed Failure.unavailable, p)
take_service (o ∷ os) p = (o, record p { service_replies = os })

unfoldable pub call_service : ServiceCall → Work (List HaEntity)
call_service call p = take_service p.service_replies (record p { calls = p.calls ++ call ∷ [] })

-- `client.state`
abbrev pub take_state : List (Outcome HaEntity) → Work HaEntity
take_state [] p = (failed Failure.unavailable, p)
take_state (o ∷ os) p = (o, record p { state_replies = os })

abbrev pub read_state : Work HaEntity
read_state p = take_state p.state_replies p

unfoldable pub get_state : HaSetup → ProviderDeviceRef → Work ProviderState
get_state s ref = entity_of s ref >>= λ _. read_state >>= snapshot s

-- `_call_for`
unfoldable pub call_for : Action → CommandParams → Option Call
call_for Action.set_power (CommandParams.on_off on) = some (record {
  service = if on then "turn_on" else "turn_off";
  content = ServiceData.no_data;
  expected = record unreported { power = some on };
})
call_for Action.set_brightness (CommandParams.brightness zero) = some (record {
  service = "turn_off";
  content = ServiceData.no_data;
  expected = record unreported { power = some false };
})
call_for Action.set_brightness (CommandParams.brightness (suc b)) = some (record {
  service = "turn_on";
  content = ServiceData.brightness_pct (suc b);
  expected = record unreported { power = some true; brightness = some (suc b) };
})
call_for Action.set_volume (CommandParams.volume v) = some (record {
  service = "volume_set";
  content = ServiceData.volume_level v;
  expected = record unreported { volume = some v };
})
call_for Action.set_playback (CommandParams.playback PlaybackCommand.play) =
    some (record { service = "media_play"; content = ServiceData.no_data; expected = unreported })
call_for Action.set_playback (CommandParams.playback PlaybackCommand.pause) =
    some (record { service = "media_pause"; content = ServiceData.no_data; expected = unreported })
call_for Action.set_target_temperature (CommandParams.target_temperature t) = some (record {
  service = "set_temperature";
  content = ServiceData.temperature t;
  expected = record unreported { target_temperature_c = some t };
})
call_for _ _ = none

-- What `subscribe` yields, and the exception that ends it if there is one.
abbrev pub Stream : Type 0
Stream = List (ProviderDeviceRef × ProviderState) × Option Failure

abbrev pub yielded : ProviderDeviceRef → Stream → Outcome ProviderState → Stream
yielded ref (events, end) (returned state) = ((ref, state) ∷ events, end)
yielded ref rest (failed e) = ([], some e)

-- The loop of `subscribe`: an entity that discovery did not find is passed over.
unfoldable pub forward_all : HaSetup → List HaEntity → HaAdapter → Stream
forward_all s [] p = ([], none)
forward_all s (entity ∷ entities) p =
    let rest = forward_all s entities p in
    elim (lookup (s.code entity.entity_id) p.kinds) [
      | none ↦ rest
      | some _ ↦ yielded (ref_for s entity.entity_id) rest (snapshot s entity p).0
    ]

-- `subscribe` over `_stream`: the states that are asked for first, then the events.
unfoldable pub subscribe : HaSetup → Outcome (List HaEntity) → List HaEntity → HaAdapter → Stream
subscribe s (failed e) events p = ([], some e)
subscribe s (returned entities) events p = forward_all s (entities ++ events) p

-- ===== src/HomeAssistant/Execution.antt =====
-- Commands to Home Assistant (backend/src/homeflow/integrations/home_assistant/provider.py).
pub mod Gate
use homeflow.Base.{
  ℕ, zero, suc, Bool, true, false, not, ◌&&◌, Option, none, some, List, [], ◌∷◌, String, ◌==◌,
  if◌then◌else◌,
}
use homeflow.Capabilities.{DeviceKind}
use homeflow.Commands.Models.{Action, CommandParams}
use homeflow.Devices.Models.{DeviceState}
use homeflow.HomeAssistant.Entities.{EntityId, HaEntity}
use homeflow.HomeAssistant.Matching.{matches}
use homeflow.HomeAssistant.Provider.{
  Call, HaAdapter, HaSetup, ServiceCall, Work, is_released, entity_of, snapshot, call_service,
  read_state, call_for,
}
use homeflow.Integrations.{
  CommandOutcome, ProviderCommand, ProviderCommandResult, ProviderDeviceRef, ProviderState,
}
use homeflow.Integrations.Flow.{
  Failure, Outcome, returned, failed, Flow, returns, fails, continue_with, ◌>>=◌, or_fail,
}

-- `self._matches`, which raises where `normalise` does.
abbrev pub check_match : HaSetup → HaEntity → DeviceKind → DeviceState → Work Bool
check_match s entity kind expected =
    or_fail (matches s.read_float entity kind expected) Failure.validation_error

-- An attempt of `_confirm` after its read: `again` is the attempts that are left.
abbrev pub look :
    HaSetup
    → DeviceKind
    → DeviceState
    → (Option HaEntity → Work (Option HaEntity))
    → Option HaEntity
    → Outcome HaEntity × HaAdapter
    → Outcome (Option HaEntity) × HaAdapter
look s kind expected again latest (returned entity, p) =
    (check_match s entity kind expected >>= λ met.
    if met then returns (some entity) else again (some entity))
      p
look s kind expected again latest (failed Failure.unavailable, p) = again latest p
look s kind expected again latest (failed Failure.misbehaved, p) = again latest p
look s kind expected again latest (failed e, p) = (failed e, p)

-- `_confirm`, with the attempts that are left and the entity read last.
unfoldable pub confirm :
    HaSetup → DeviceKind → DeviceState → ℕ → Option HaEntity → Work (Option HaEntity)
confirm s kind expected zero latest p = (returned latest, p)
confirm s kind expected (suc attempts) latest p =
    look s kind expected (confirm s kind expected attempts) latest (read_state p)

abbrev pub applied : ProviderState → ProviderCommandResult
applied state = record { outcome = CommandOutcome.applied; state = some state; failure_code = none }

abbrev pub verdict : ProviderState → Bool → ProviderCommandResult
verdict state true = applied state
verdict state false = record {
  outcome = CommandOutcome.unknown;
  state = some state;
  failure_code = some "not_confirmed_by_device";
}

-- The end of `execute`, by the entity that was read back.
abbrev pub judge : HaSetup → DeviceKind → DeviceState → Option HaEntity → Work ProviderCommandResult
judge s kind expected none = returns (record {
  outcome = CommandOutcome.unknown;
  state = none;
  failure_code = some "read_back_failed";
})
judge s kind expected (some observed) = snapshot s observed >>= λ state.
    check_match s observed kind expected >>= λ met. returns (verdict state met)

unfoldable pub read_back : HaSetup → DeviceKind → DeviceState → Work ProviderCommandResult
read_back s kind expected =
    confirm s kind expected s.confirm_attempts none >>= judge s kind expected

-- `entity.entity_id == entity_id`
abbrev pub is_entity : HaSetup → EntityId → HaEntity → Bool
is_entity s id entity = s.code entity.entity_id == s.code id

abbrev pub settle :
    HaSetup → HaEntity → Work ProviderCommandResult → Bool → Work ProviderCommandResult
settle s entity rest met =
    if met then (snapshot s entity >>= λ state. returns (applied state)) else rest

-- The loop of `execute` over the entities that the service call changed.
unfoldable pub among :
    HaSetup → EntityId → DeviceKind → DeviceState → List HaEntity → Work ProviderCommandResult
among s id kind expected [] = read_back s kind expected
among s id kind expected (entity ∷ changed) =
    let rest = among s id kind expected changed in
    let found = check_match s entity kind expected >>= settle s entity rest in
    if is_entity s id entity then found else rest

-- `execute` from the service call on.
unfoldable pub call_and_judge : HaSetup → EntityId → DeviceKind → Call → Work ProviderCommandResult
call_and_judge s id kind call =
    call_service (record {
      domain = id.domain;
      service = call.service;
      entity_id = id;
      content = call.content;
    })
    >>= among s id kind call.expected

-- `execute` once the entity is known.
unfoldable pub command_entity :
    HaSetup → ProviderCommand → EntityId × DeviceKind → Work ProviderCommandResult
command_entity s command (id, kind) =
    let asked =
      or_fail (call_for command.action command.params) Failure.rejected
      >>= call_and_judge s id kind in
    if is_released s id.domain then asked else fails Failure.rejected

unfoldable pub execute : HaSetup → ProviderDeviceRef → ProviderCommand → Work ProviderCommandResult
execute s ref command = entity_of s ref >>= command_entity s command

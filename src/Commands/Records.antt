-- ===== src/Commands/Records.antt =====
-- The bookkeeping of the pipeline (backend/src/homeflow/commands/service.py): the bounded store of
-- commands, the audit entries and the events.
pub mod Frame
use homeflow.Base.{ℕ, ◌+◌, Option, none, some, String}
use homeflow.Base.Dict.{Dict, insert, move_to_end, trim}
use homeflow.Audit.{AuditEntry, Context}
use homeflow.Auth.{Principal}
use homeflow.Commands.Models.{Action, Command, CommandParams, CommandStatus, RiskClass, with_status}
use homeflow.Devices.Models.{Device}
use homeflow.Errors.{pure, gets, modify, ◌>>=◌, ◌>>◌}
use homeflow.Events.Models.{DomainEvent, EventType, Payload}
use homeflow.Gateway.{Call, publish, record_entry}

-- `_COMMAND_TTL`, two minutes.
abbrev pub command_ttl : ℕ
command_ttl = 120_000_000

abbrev pub max_tracked_commands : ℕ
max_tracked_commands = 500

-- `self._commands` after `_remember`.
abbrev pub store : Command → Dict Command → Dict Command
store c commands = trim max_tracked_commands (move_to_end c.id (insert c.id c commands))

-- `_remember`
abbrev pub remember : Command → Call (Unit {0})
remember c = modify (λ g. record g { commands = store c g.commands })

-- The event that `_publish` makes.
abbrev pub command_event : EventType → Command → ℕ → DomainEvent
command_event t c now = record {
  type = t;
  occurred_at = now;
  device_id = some c.device_id;
  command_id = some c.id;
  correlation_id = some c.correlation_id;
  payload = Payload.command c.status c.action;
}

-- `_publish`
abbrev pub publish_command : EventType → Command → Call (Unit {0})
publish_command t c g = publish (command_event t c g.clock) g

-- The record of a refusal.
abbrev pub denied_entry : Principal → Device → Action → String → String → ℕ → AuditEntry
denied_entry principal device action correlation_id reason now = record {
  occurred_at = now;
  event = "command.denied";
  actor_user_id = some principal.user_id;
  actor_client_id = some principal.client_id;
  device_id = some device.id;
  command_id = none;
  action = some action;
  risk_class = none;
  outcome = some reason;
  correlation_id = some correlation_id;
  context = Context.empty;
}

-- `_audit_denied`
unfoldable pub audit_denied : Principal → Device → Action → String → String → Call (Unit {0})
audit_denied principal device action correlation_id reason g =
    record_entry (denied_entry principal device action correlation_id reason g.clock) g

abbrev pub status_value : CommandStatus → String
status_value CommandStatus.pending = "PENDING"
status_value CommandStatus.running = "RUNNING"
status_value CommandStatus.succeeded = "SUCCEEDED"
status_value CommandStatus.failed = "FAILED"
status_value CommandStatus.timed_out = "TIMED_OUT"
status_value CommandStatus.cancelled = "CANCELLED"
status_value CommandStatus.superseded = "SUPERSEDED"
status_value CommandStatus.unknown = "UNKNOWN"

-- `{"failure_code": failure_code} if failure_code else {}`
abbrev pub failure_context : Option String → Context
failure_context none = Context.empty
failure_context (some String.[]) = Context.empty
failure_context (some (String.◌∷◌ c s)) = Context.failure (String.◌∷◌ c s)

-- `_COMPLETION_EVENTS.get(status)`
abbrev pub completion_event : CommandStatus → Option EventType
completion_event CommandStatus.succeeded = some EventType.command_succeeded
completion_event CommandStatus.failed = some EventType.command_failed
completion_event CommandStatus.unknown = some EventType.command_timed_out
completion_event _ = none

abbrev pub publish_completion : Option EventType → Command → Call (Unit {0})
publish_completion none c = pure tt
publish_completion (some t) c = publish_command t c

-- The record of a finished command.
abbrev pub completed_entry : Command → CommandStatus → Option String → ℕ → AuditEntry
completed_entry finished status failure_code now = record {
  occurred_at = now;
  event = "command.completed";
  actor_user_id = some finished.requested_by_user_id;
  actor_client_id = some finished.requested_by_client_id;
  device_id = some finished.device_id;
  command_id = some finished.id;
  action = some finished.action;
  risk_class = some finished.risk_class;
  outcome = some (status_value status);
  correlation_id = some finished.correlation_id;
  context = failure_context failure_code;
}

-- `_finish`
unfoldable pub finish : Command → CommandStatus → Option String → Call Command
finish c status failure_code = do
  now ← gets (λ g. g.clock)
  let finished = with_status c status now failure_code
  remember finished
  record_entry (completed_entry finished status failure_code now)
  publish_completion (completion_event status) finished
  pure finished

-- The command that `_create` builds.
abbrev pub new_command :
    ℕ → Principal → Device → Action → CommandParams → RiskClass → String → ℕ → Command
new_command new_id principal device action p risk correlation_id now = record {
  id = new_id;
  device_id = device.id;
  requested_by_user_id = principal.user_id;
  requested_by_client_id = principal.client_id;
  action = action;
  parameters = p;
  risk_class = risk;
  correlation_id = correlation_id;
  created_at = now;
  expires_at = now + command_ttl;
  started_at = none;
  completed_at = none;
  status = CommandStatus.pending;
  failure_code = none;
}

-- The record of a request.
abbrev pub requested_entry : Command → ℕ → AuditEntry
requested_entry c now = record {
  occurred_at = now;
  event = "command.requested";
  actor_user_id = some c.requested_by_user_id;
  actor_client_id = some c.requested_by_client_id;
  device_id = some c.device_id;
  command_id = some c.id;
  action = some c.action;
  risk_class = some c.risk_class;
  outcome = none;
  correlation_id = some c.correlation_id;
  context = Context.request c.parameters;
}

-- `_create`
unfoldable pub create :
    ℕ → Principal → Device → Action → CommandParams → RiskClass → String → Call Command
create new_id principal device action p risk correlation_id = do
  now ← gets (λ g. g.clock)
  let command = new_command new_id principal device action p risk correlation_id now
  remember command
  record_entry (requested_entry command now)
  publish_command EventType.command_requested command
  pure command

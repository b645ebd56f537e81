-- ===== src/Commands/Execution.antt =====
-- Execution and reconciliation, `_execute` and `_reconcile`
-- (backend/src/homeflow/commands/service.py). The bounded waits are parts of the environment: what
-- other tasks do meanwhile, and how the provider's call ends.
pub mod Outcome
pub mod Trace
pub mod Timers
use homeflow.Base.{ℕ, Bool, true, false, Option, none, some, [], ◌∷◌, ◌++◌, String}
use homeflow.Commands.Locks.{acquire_lock}
use homeflow.Commands.Models.{Command, CommandParams, CommandStatus, with_status}
use homeflow.Commands.Reconcile.{desired_matches}
use homeflow.Commands.Records.{remember, publish_command, finish}
use homeflow.Devices.Models.{Device, StateSource}
use homeflow.Devices.Registry.{ref_for}
use homeflow.Devices.Service.{ingest}
use homeflow.Errors.{pure, gets, modify, ◌>>=◌, ◌>>◌}
use homeflow.Events.Models.{EventType}
use homeflow.Gateway.{Gateway, Wiring, Call}
use homeflow.Integrations.{
  ProviderDeviceRef, ProviderState, CommandOutcome, ExecuteReply, ReadReply,
}

-- What the rest of the world does in one submission: the new identifier, what other tasks do while
-- this one waits, and how the provider answers.
pub record Attempt : Type 0 where
  pub new_id : ℕ
  pub while_locked_out : Gateway → Gateway
  pub while_executing : Gateway → Gateway
  pub reply : ExecuteReply
  pub while_reading : Gateway → Gateway
  pub readback : ReadReply

-- An await: other tasks run.
abbrev await_with : (Gateway → Gateway) → Call (Unit {0})
await_with others = modify others

-- `desired_matches(...) is True`
abbrev pub is_true : Option Bool → Bool
is_true (some true) = true
is_true (some false) = false
is_true none = false

-- The verdict of `_reconcile`, by whether the observed state is the desired one.
abbrev pub finish_observed : Bool → Command → Call Command
finish_observed true c = finish c CommandStatus.succeeded none
finish_observed false c = finish c CommandStatus.unknown (some "device_response_timeout")

-- The part of `_reconcile` after the state is read back.
settle_observed : Command → ProviderDeviceRef → CommandParams → ProviderState → Call Command
settle_observed c ref p seen =
    ingest ref seen StateSource.provider_snapshot (some c.correlation_id)
    >> finish_observed (is_true (desired_matches c.action p seen.state)) c

abbrev conclude_read : Command → ProviderDeviceRef → CommandParams → ReadReply → Call Command
unfolding settle_observed
conclude_read c ref p (ReadReply.observed seen) = settle_observed c ref p seen
conclude_read c ref p ReadReply.timed_out =
    finish c CommandStatus.unknown (some "reconciliation_failed")
conclude_read c ref p (ReadReply.provider_error _) =
    finish c CommandStatus.unknown (some "reconciliation_failed")
conclude_read c ref p ReadReply.raised =
    finish c CommandStatus.unknown (some "reconciliation_failed")

unfoldable pub reconcile : Attempt → Command → ProviderDeviceRef → CommandParams → Call Command
unfolding settle_observed
reconcile a c ref p = do
  publish_command EventType.command_timed_out c
  modify (λ g. record g { reads = g.reads ++ ref ∷ [] })
  await_with a.while_reading
  conclude_read c ref p a.readback

-- `result.failure_code or "rejected"`
abbrev pub or_rejected : Option String → Option String
or_rejected none = some "rejected"
or_rejected (some String.[]) = some "rejected"
or_rejected (some (String.◌∷◌ c s)) = some (String.◌∷◌ c s)

abbrev ingest_result : Command → ProviderDeviceRef → Option ProviderState → Call (Unit {0})
ingest_result c ref none = pure tt
ingest_result c ref (some s) =
    ingest ref s StateSource.command_result (some c.correlation_id) >> pure tt

abbrev finish_outcome : Command → CommandOutcome → Option String → Call Command
finish_outcome c CommandOutcome.applied code = finish c CommandStatus.succeeded none
finish_outcome c CommandOutcome.rejected code = finish c CommandStatus.failed (or_rejected code)
finish_outcome c CommandOutcome.unknown code = finish c CommandStatus.unknown code

-- What follows `provider.execute`, by how it ended.
unfoldable pub conclude :
    Attempt → Command → ProviderDeviceRef → CommandParams → ExecuteReply → Call Command
conclude a c ref p (ExecuteReply.returned r) =
    ingest_result c ref r.state >> finish_outcome c r.outcome r.failure_code
conclude a c ref p ExecuteReply.timed_out = reconcile a c ref p
conclude a c ref p (ExecuteReply.provider_error code) = finish c CommandStatus.failed (some code)
conclude a c ref p ExecuteReply.raised = finish c CommandStatus.failed (some "internal_error")

-- `_execute` with a provider that the container wired.
unfoldable pub execute_wired :
    Attempt → Command → Device → CommandParams → ProviderDeviceRef → Call Command
execute_wired a command device p ref = do
  now ← gets (λ g. g.clock)
  let running = with_status command CommandStatus.running now none
  remember running
  publish_command EventType.command_started running
  acquire_lock device.id
  await_with a.while_locked_out
  modify λ g. record g {
    writes = g.writes ++ (ref, record { action = command.action; params = p }) ∷ [];
  }
  await_with a.while_executing
  conclude a running ref p a.reply

-- `_execute`, by whether the container wired the provider.
abbrev pub execute_at :
    Bool → Attempt → Command → Device → CommandParams → ProviderDeviceRef → Call Command
execute_at true a command device p ref = execute_wired a command device p ref
execute_at false a command device p ref =
    finish command CommandStatus.failed (some "provider_unavailable")

unfoldable pub execute : Wiring → Attempt → Command → Device → CommandParams → Call Command
execute w a command device p = do
  ref ← λ g. (ref_for g.registry device.id, g)
  execute_at (w.has_provider ref.provider) a command device p ref

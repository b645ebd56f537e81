-- ===== src/Commands/Execution/Outcome.antt =====
-- Every command that reaches a provider comes to an end
-- (backend/src/homeflow/commands/service.py).
use homeflow.Base.{
  ◌≡◌, refl, ap, [], ◌∷◌, ◌++◌, subst, sym, Bool, true, false, Option, none, some, String,
  if◌then◌else◌,
}
use mathlib.Core.Path.{subst₂}
use homeflow.Commands.Models.{Action, Command, CommandParams, CommandStatus, with_status}
use homeflow.Commands.Execution.{
  Attempt, reconcile, conclude, conclude_read, settle_observed, finish_outcome, execute_wired,
  execute, execute_at, is_true, or_rejected, finish_observed, ingest_result,
}
use homeflow.Commands.Locks.{device_lock}
use homeflow.Commands.Locks.Frame.{device_lock_frame}
use homeflow.Commands.Reconcile.{desired_matches}
use homeflow.Commands.Records.{store, command_event}
use homeflow.Commands.Sound.{
  IsSound, same-IsSound, Keeps, Ending, Concluded, remember-IsSound, finish-Concluded,
  ingest-IsSound, with_status-id, with_status-action,
}
use homeflow.Devices.Models.{Device, StateSource}
use homeflow.Devices.Registry.{Identity, ref_for}
use homeflow.Devices.Service.{ingest}
use homeflow.Errors.{ok, bind_ok}
use homeflow.Events.Models.{EventType}
use homeflow.Gateway.{Gateway, Wiring}
use homeflow.Integrations.{
  CommandOutcome, ExecuteReply, ProviderDeviceRef, ProviderState, ReadReply,
}

-- What `_reconcile` decides, from the state that is read back once.
abbrev pub read_ending : Action → CommandParams → ReadReply → Ending
read_ending action p (ReadReply.observed seen) =
    if is_true (desired_matches action p seen.state)
    then (CommandStatus.succeeded, none)
    else (CommandStatus.unknown, some "device_response_timeout")
read_ending action p _ = (CommandStatus.unknown, some "reconciliation_failed")

abbrev pub outcome_ending : CommandOutcome → Option String → Ending
outcome_ending CommandOutcome.applied code = (CommandStatus.succeeded, none)
outcome_ending CommandOutcome.rejected code = (CommandStatus.failed, or_rejected code)
outcome_ending CommandOutcome.unknown code = (CommandStatus.unknown, code)

-- How a command ends, by how the provider's call ended and what was read back.
abbrev pub ending : Action → CommandParams → ExecuteReply → ReadReply → Ending
ending action p (ExecuteReply.returned r) back = outcome_ending r.outcome r.failure_code
ending action p ExecuteReply.timed_out back = read_ending action p back
ending action p (ExecuteReply.provider_error code) back = (CommandStatus.failed, some code)
ending action p ExecuteReply.raised back = (CommandStatus.failed, some "internal_error")

-- A provider that the container did not wire is a failure.
abbrev pub ending_at : Attempt → Bool → Command → CommandParams → Ending
ending_at a true c p = ending c.action p a.reply a.readback
ending_at a false c p = (CommandStatus.failed, some "provider_unavailable")

module _ (u : Identity) (g : Gateway) (s : IsSound u g) where
  finish_observed-Concluded :
      (b : Bool) (c : Command)
      → Concluded u c.id
          (if b
            then (CommandStatus.succeeded, none)
            else (CommandStatus.unknown, some "device_response_timeout"))
          (finish_observed b c g)
  finish_observed-Concluded true c = finish-Concluded u g s c CommandStatus.succeeded _
  finish_observed-Concluded false c = finish-Concluded u g s c CommandStatus.unknown _

module _ (u : Identity) (g : Gateway) (s : IsSound u g) where
  settle_observed-Concluded :
      (c : Command) (ref : ProviderDeviceRef) (p : CommandParams) (seen : ProviderState)
      → Concluded u c.id
          (read_ending c.action p (ReadReply.observed seen))
          (settle_observed c ref p seen g)
  unfolding settle_observed
  settle_observed-Concluded c ref p seen =
      let (d, e, sound, _) =
        ingest-IsSound u g s ref seen StateSource.provider_snapshot (some c.correlation_id) in
      rw (bind_ok (ingest ref seen StateSource.provider_snapshot (some c.correlation_id)) _ g e)
        (finish_observed-Concluded u _ sound (is_true (desired_matches c.action p seen.state)) c)

  conclude_read-Concluded :
      (c : Command) (ref : ProviderDeviceRef) (p : CommandParams) (r : ReadReply)
      → Concluded u c.id (read_ending c.action p r) (conclude_read c ref p r g)
  unfolding conclude_read
  conclude_read-Concluded c ref p (ReadReply.observed seen) = settle_observed-Concluded c ref p seen
  conclude_read-Concluded c ref p ReadReply.timed_out =
      finish-Concluded u g s c CommandStatus.unknown _
  conclude_read-Concluded c ref p (ReadReply.provider_error _) =
      finish-Concluded u g s c CommandStatus.unknown _
  conclude_read-Concluded c ref p ReadReply.raised =
      finish-Concluded u g s c CommandStatus.unknown _

  finish_outcome-Concluded :
      (c : Command) (o : CommandOutcome) (code : Option String)
      → Concluded u c.id (outcome_ending o code) (finish_outcome c o code g)
  finish_outcome-Concluded c CommandOutcome.applied code =
      finish-Concluded u g s c CommandStatus.succeeded _
  finish_outcome-Concluded c CommandOutcome.rejected code =
      finish-Concluded u g s c CommandStatus.failed _
  finish_outcome-Concluded c CommandOutcome.unknown code =
      finish-Concluded u g s c CommandStatus.unknown _

  ingest_result-IsSound :
      (c : Command) (ref : ProviderDeviceRef) (r : Option ProviderState)
      → ((ingest_result c ref r g).0 ≡ ok tt) × IsSound u (ingest_result c ref r g).1
  ingest_result-IsSound c ref none = (refl, s)
  ingest_result-IsSound c ref (some seen) =
      let (d, e, sound, _) =
        ingest-IsSound u g s ref seen StateSource.command_result (some c.correlation_id) in
      rw (bind_ok (ingest ref seen StateSource.command_result (some c.correlation_id)) _ g e)
        (refl, sound)

-- The gateway when the task asks for the lock, and when it calls the provider.
abbrev pub at_lock : Command → Device → Gateway → Gateway
at_lock c d g =
    let running = with_status c CommandStatus.running g.clock none in
    (device_lock d.id (record g {
      commands = store running g.commands;
      published = g.published ++ command_event EventType.command_started running g.clock ∷ [];
    })).1

abbrev pub at_write :
    Attempt → Command → Device → CommandParams → ProviderDeviceRef → Gateway → Gateway
at_write a c d p ref g =
    let held = a.while_locked_out (at_lock c d g) in
    record held { writes = held.writes ++ (ref, record { action = c.action; params = p }) ∷ [] }

-- However the provider's call ends, the command ends.
module _ (u : Identity) (a : Attempt) (keeps : Keeps u a) where
  pub conclude-Concluded :
      (g : Gateway)
      → IsSound u g
      → (c : Command) (ref : ProviderDeviceRef) (p : CommandParams) (r : ExecuteReply)
      → Concluded u c.id (ending c.action p r a.readback) (conclude a c ref p r g)
  unfolding conclude reconcile
  conclude-Concluded g s c ref p (ExecuteReply.returned r) =
      let (e, sound) = ingest_result-IsSound u g s c ref r.state in
      rw (bind_ok (ingest_result c ref r.state) _ g e)
        (finish_outcome-Concluded u _ sound c r.outcome r.failure_code)
  conclude-Concluded g s c ref p ExecuteReply.timed_out =
      conclude_read-Concluded u _
        (keeps.reading _
          (record { registry = s.registry; commands = s.commands; bounded = s.bounded }))
        c ref p a.readback
  conclude-Concluded g s c ref p (ExecuteReply.provider_error code) =
      finish-Concluded u g s c CommandStatus.failed _
  conclude-Concluded g s c ref p ExecuteReply.raised =
      finish-Concluded u g s c CommandStatus.failed _

  locked-IsSound :
      (g : Gateway) → IsSound u g → (c : Command) (d : Device) → IsSound u (at_lock c d g)
  locked-IsSound g s c d =
      let running = with_status c CommandStatus.running g.clock none in
      same-IsSound u (record g { commands = store running g.commands }) (at_lock c d g)
        (ap (λ (h : Gateway). h.registry) (device_lock_frame d.id _))
        (ap (λ (h : Gateway). h.commands) (device_lock_frame d.id _))
        (remember-IsSound u g s running)

  -- The invariant holds when the provider answers.
  pub written-IsSound :
      (g : Gateway)
      → IsSound u g
      → (c : Command) (d : Device) (p : CommandParams) (ref : ProviderDeviceRef)
      → IsSound u (a.while_executing (at_write a c d p ref g))
  written-IsSound g s c d p ref =
      keeps.executing (at_write a c d p ref g)
        (same-IsSound u _ _ refl refl (keeps.locked_out (at_lock c d g) (locked-IsSound g s c d)))

  execute_wired-Concluded :
      (g : Gateway)
      → IsSound u g
      → (c : Command) (d : Device) (p : CommandParams) (ref : ProviderDeviceRef)
      → Concluded u c.id (ending c.action p a.reply a.readback) (execute_wired a c d p ref g)
  unfolding execute_wired
  execute_wired-Concluded g s c d p ref =
      let running = with_status c CommandStatus.running g.clock none in
      subst₂ (λ i t. Concluded u i (ending t p a.reply a.readback) (execute_wired a c d p ref g))
        (with_status-id c CommandStatus.running g.clock none)
        (with_status-action c CommandStatus.running g.clock none)
        (conclude-Concluded _ (written-IsSound g s c d p ref) running ref p a.reply)

  pub execute-Concluded :
      (w : Wiring) (g : Gateway)
      → IsSound u g
      → (c : Command) (d : Device) (p : CommandParams) (ref : ProviderDeviceRef)
      → ref_for g.registry d.id ≡ ok ref
      → Concluded u c.id (ending_at a (w.has_provider ref.provider) c p) (execute w a c d p g)
  unfolding execute
  execute-Concluded w g s c d p ref e =
      subst (Concluded u c.id (ending_at a (w.has_provider ref.provider) c p))
        (sym (
          bind_ok (λ h. (ref_for h.registry d.id, h))
            (λ r. execute_at (w.has_provider r.provider) a c d p r) g e))
        (choose (w.has_provider ref.provider))
    where
      choose : (b : Bool) → Concluded u c.id (ending_at a b c p) (execute_at b a c d p ref g)
      choose true = execute_wired-Concluded g s c d p ref
      choose false = finish-Concluded u g s c CommandStatus.failed _

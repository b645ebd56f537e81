-- ===== src/Commands/Execution/Trace.antt =====
-- What one execution leaves behind: the provider calls and the audit records
-- (backend/src/homeflow/commands/service.py).
use mathlib.Core.Path.{ap₂}
use homeflow.Base.{
  ℕ, ◌≡◌, refl, sym, ap, ◌∙◌, Bool, true, false, Option, none, some, List, [], ◌∷◌, ◌++◌, String,
}
use homeflow.Commands.Execution.{
  Attempt, reconcile, conclude, conclude_read, settle_observed, finish_outcome, finish_observed,
  execute_wired, ingest_result, is_true,
}
use homeflow.Commands.Execution.Outcome.{at_lock, at_write, written-IsSound}
use homeflow.Commands.Locks.Frame.{device_lock_frame}
use homeflow.Commands.Models.{Command, CommandParams, CommandStatus, with_status}
use homeflow.Commands.Reconcile.{desired_matches}
use homeflow.Commands.Records.{finish, completed_entry}
use homeflow.Commands.Records.Frame.{finish_lem}
use homeflow.Commands.Sound.{IsSound, Keeps, ingest-IsSound, with_status-status, with_status-code}
use homeflow.Devices.Models.{Device, StateSource}
use homeflow.Devices.Registry.{Identity}
use homeflow.Devices.Service.{ingest}
use homeflow.Errors.{Result, ok, bind_ok}
use homeflow.Gateway.{Gateway}
use homeflow.Integrations.{
  CommandOutcome, ExecuteReply, ProviderDeviceRef, ProviderState, ReadReply, ProviderCommand,
}

-- Two states in which the same provider calls and audit records were made.
pub record SameTrace (g h : Gateway) : Type 0 where
  pub writes : h.writes ≡ g.writes
  pub recorded : h.recorded ≡ g.recorded

-- While the submission waits, no other task calls a provider or writes an audit record.
pub record IsAlone (a : Attempt) : Type 0 where
  pub locked_out : (g : Gateway) → SameTrace g (a.while_locked_out g)
  pub executing : (g : Gateway) → SameTrace g (a.while_executing g)
  pub reading : (g : Gateway) → SameTrace g (a.while_reading g)

-- A call that ends with a command: no provider is asked to write again, and the completion is
-- recorded once.
pub record Logged (writes : List (ProviderDeviceRef × ProviderCommand)) (g : Gateway)
    (r : Result Command × Gateway) : Type 0 where
  pub command : Command
  pub at : ℕ
  pub returned : r.0 ≡ ok command
  pub written : r.1.writes ≡ writes
  pub logged :
      r.1.recorded
      ≡ g.recorded ++ completed_entry command command.status command.failure_code at ∷ []

Logged-after :
    (g h : Gateway) {r : Result Command × Gateway}
    → SameTrace g h
    → Logged h.writes h r
    → Logged g.writes g r
Logged-after g h same l = record {
  command = l.command;
  at = l.at;
  returned = l.returned;
  written = l.written ∙ same.writes;
  logged =
      l.logged
      ∙ ap (λ t. t ++ completed_entry l.command l.command.status l.command.failure_code l.at ∷ [])
          same.recorded;
}

finish-Logged :
    (c : Command) (status : CommandStatus) (code : Option String) (g : Gateway)
    → Logged g.writes g (finish c status code g)
finish-Logged c status code g =
    let done = with_status c status g.clock code in
    rw (finish_lem c status code g) (record {
      command = done;
      at = g.clock;
      returned = refl;
      written = refl;
      logged =
          ap₂ (λ s f. g.recorded ++ completed_entry done s f g.clock ∷ [])
            (sym (with_status-status c status g.clock code))
            (sym (with_status-code c status g.clock code));
    })

finish_observed-Logged :
    (b : Bool) (c : Command) (g : Gateway) → Logged g.writes g (finish_observed b c g)
finish_observed-Logged true c g = finish-Logged c CommandStatus.succeeded _ g
finish_observed-Logged false c g = finish-Logged c CommandStatus.unknown _ g

finish_outcome-Logged :
    (c : Command) (o : CommandOutcome) (code : Option String) (g : Gateway)
    → Logged g.writes g (finish_outcome c o code g)
finish_outcome-Logged c CommandOutcome.applied code g = finish-Logged c CommandStatus.succeeded _ g
finish_outcome-Logged c CommandOutcome.rejected code g = finish-Logged c CommandStatus.failed _ g
finish_outcome-Logged c CommandOutcome.unknown code g = finish-Logged c CommandStatus.unknown _ g

module _ (u : Identity) (g : Gateway) (s : IsSound u g) where
  ingest-SameTrace :
      (ref : ProviderDeviceRef) (seen : ProviderState) (source : StateSource) (c : Option String)
      → SameTrace g (ingest ref seen source c g).1
  ingest-SameTrace ref seen source c =
      let (_, _, _, frame) = ingest-IsSound u g s ref seen source c in
      record {
        writes = ap (λ (h : Gateway). h.writes) frame;
        recorded = ap (λ (h : Gateway). h.recorded) frame;
      }

  conclude_read-Logged :
      (c : Command) (ref : ProviderDeviceRef) (p : CommandParams) (r : ReadReply)
      → Logged g.writes g (conclude_read c ref p r g)
  unfolding conclude_read settle_observed
  conclude_read-Logged c ref p (ReadReply.observed seen) =
      let source = StateSource.provider_snapshot in
      let (_, e, _, _) = ingest-IsSound u g s ref seen source (some c.correlation_id) in
      rw (bind_ok (ingest ref seen source (some c.correlation_id)) _ g e) (
        Logged-after g _ (ingest-SameTrace ref seen source (some c.correlation_id))
          (finish_observed-Logged (is_true (desired_matches c.action p seen.state)) c _))
  conclude_read-Logged c ref p ReadReply.timed_out = finish-Logged c CommandStatus.unknown _ g
  conclude_read-Logged c ref p (ReadReply.provider_error _) =
      finish-Logged c CommandStatus.unknown _ g
  conclude_read-Logged c ref p ReadReply.raised = finish-Logged c CommandStatus.unknown _ g

  ingest_result-returns :
      (c : Command) (ref : ProviderDeviceRef) (r : Option ProviderState)
      → ((ingest_result c ref r g).0 ≡ ok tt) × SameTrace g (ingest_result c ref r g).1
  ingest_result-returns c ref none = (refl, record { writes = refl; recorded = refl })
  ingest_result-returns c ref (some seen) =
      let source = StateSource.command_result in
      let (_, e, _, _) = ingest-IsSound u g s ref seen source (some c.correlation_id) in
      rw (bind_ok (ingest ref seen source (some c.correlation_id)) _ g e)
        (refl, ingest-SameTrace ref seen source (some c.correlation_id))

module _ (u : Identity) (a : Attempt) (keeps : Keeps u a) (alone : IsAlone a) where
  conclude-Logged :
      (g : Gateway)
      → IsSound u g
      → (c : Command) (ref : ProviderDeviceRef) (p : CommandParams) (r : ExecuteReply)
      → Logged g.writes g (conclude a c ref p r g)
  unfolding conclude reconcile
  conclude-Logged g s c ref p (ExecuteReply.returned r) =
      let (e, same) = ingest_result-returns u g s c ref r.state in
      rw (bind_ok (ingest_result c ref r.state) _ g e)
        (Logged-after g _ same (finish_outcome-Logged c r.outcome r.failure_code _))
  conclude-Logged g s c ref p ExecuteReply.timed_out =
      let before : IsSound u _ = record {
        registry = s.registry;
        commands = s.commands;
        bounded = s.bounded;
      } in
      Logged-after g _
        (record { writes = (alone.reading _).writes; recorded = (alone.reading _).recorded })
        (conclude_read-Logged u _ (keeps.reading _ before) c ref p a.readback)
  conclude-Logged g s c ref p (ExecuteReply.provider_error code) =
      finish-Logged c CommandStatus.failed _ g
  conclude-Logged g s c ref p ExecuteReply.raised = finish-Logged c CommandStatus.failed _ g

  -- One execution is one write, whatever the provider answers, and one completion record.
  pub execute_wired-Logged :
      (g : Gateway)
      → IsSound u g
      → (c : Command) (d : Device) (p : CommandParams) (ref : ProviderDeviceRef)
      → Logged
          (g.writes ++ (ref, record { action = c.action; params = p }) ∷ [])
          g
          (execute_wired a c d p ref g)
  unfolding execute_wired
  execute_wired-Logged g s c d p ref =
      let call : ProviderDeviceRef × ProviderCommand =
        (ref, record { action = c.action; params = p }) in
      let turn = alone.locked_out (at_lock c d g) in
      let done = alone.executing (at_write a c d p ref g) in
      let frame = device_lock_frame d.id _ in
      let l =
        conclude-Logged _ (written-IsSound u a keeps g s c d p ref)
          (with_status c CommandStatus.running g.clock none) ref p a.reply in
      record {
        command = l.command;
        at = l.at;
        returned = l.returned;
        written =
            l.written
            ∙ done.writes
            ∙ ap (λ t. t ++ call ∷ []) (turn.writes ∙ ap (λ (h : Gateway). h.writes) frame);
        logged =
            l.logged
            ∙ ap
                (λ t.
                  t ++ completed_entry l.command l.command.status l.command.failure_code l.at ∷ [])
                (done.recorded ∙ turn.recorded ∙ ap (λ (h : Gateway). h.recorded) frame);
      }

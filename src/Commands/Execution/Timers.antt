-- ===== src/Commands/Execution/Timers.antt =====
-- What the pipeline does to the timers: nothing (backend/src/homeflow/commands/service.py).
use homeflow.Base.{
  ℕ, ◌≡◌, sym, ap, subst, Bool, true, false, Option, none, some, String, arith, inl, inr,
  Option-cases,
}
use homeflow.Base.Dict.{Dict, lookup}
use homeflow.Commands.Execution.{
  Attempt, reconcile, conclude, execute_wired, execute_at, execute, settle_observed, conclude_read,
  finish_observed, is_true, finish_outcome, ingest_result, or_rejected,
}
use homeflow.Commands.Locks.Frame.{device_lock_frame}
use homeflow.Commands.Locks.{device_lock}
use homeflow.Commands.Models.{Command, CommandParams, CommandStatus}
use homeflow.Commands.Reconcile.{desired_matches}
use homeflow.Commands.Records.{finish, publish_command}
use homeflow.Commands.Records.Frame.{finish_lem}
use homeflow.Devices.Models.{Device, StateSource}
use homeflow.Devices.Registry.{require, ref_for, apply, id_for_ref}
use homeflow.Devices.Service.{ingest}
use homeflow.Devices.Service.Frame.{ingest_unknown, ingest_lem}
use homeflow.Errors.{pure, Result-cases, ◌>>=◌, bind_ok, bind_err}
use homeflow.Gateway.{Gateway, Wiring, Call}
use homeflow.Integrations.{
  CommandOutcome, ExecuteReply, ProviderDeviceRef, ProviderState, ReadReply,
}
use homeflow.Schedules.Models.{Schedule}

-- A call that keeps a property of the store of timers.
abbrev pub KeepsTimers : (Dict Schedule → Type 0) → {A : Type 0} → Call A → Type 0
KeepsTimers P m = (g : Gateway) → P g.schedules → P (m g).1.schedules

module _ (P : Dict Schedule → Type 0) where
  pub bind-KeepsTimers :
      {A B : Type 0} (m : Call A) (f : A → Call B)
      → KeepsTimers P m
      → ((a : A) → KeepsTimers P (f a))
      → KeepsTimers P (m >>= f)
  bind-KeepsTimers m f k l g v = elim (Result-cases (m g).0) [
    | inl (a, e) ↦ rw (bind_ok m f g e) (l a (m g).1 (k g v))
    | inr (e, h) ↦ rw (bind_err m f g h) (k g v)
  ]

  finish-KeepsTimers :
      (c : Command) (status : CommandStatus) (code : Option String)
      → KeepsTimers P (finish c status code)
  finish-KeepsTimers c status code g v = rw (finish_lem c status code g) v

  ingest_schedules :
      (ref : ProviderDeviceRef) (s : ProviderState) (source : StateSource) (c : Option String)
      (g : Gateway)
      → (ingest ref s source c g).1.schedules ≡ g.schedules
  unfolding ingest apply require
  ingest_schedules ref s source c g = elim (Option-cases (id_for_ref g.registry ref)) [
    | inl e ↦ ap (λ r. r.1.schedules) (ingest_unknown ref s source c g e)
    | inr (i, e) ↦ elim (Option-cases (lookup i g.registry.devices)) [
      | inl h ↦ ground arith
      | inr (before, h) ↦ ap (λ r. r.1.schedules) (ingest_lem ref s source c g i before e h)
    ]
  ]

  ingest-KeepsTimers :
      (ref : ProviderDeviceRef) (s : ProviderState) (source : StateSource) (c : Option String)
      → KeepsTimers P (ingest ref s source c)
  ingest-KeepsTimers ref s source c g v = subst P (sym (ingest_schedules ref s source c g)) v

  -- What other tasks do while a submission waits keeps the property.
  pub record OthersKeep (a : Attempt) : Type 0 where
    pub locked_out : (g : Gateway) → P g.schedules → P (a.while_locked_out g).schedules
    pub executing : (g : Gateway) → P g.schedules → P (a.while_executing g).schedules
    pub reading : (g : Gateway) → P g.schedules → P (a.while_reading g).schedules

  finish_observed-KeepsTimers : (b : Bool) (c : Command) → KeepsTimers P (finish_observed b c)
  finish_observed-KeepsTimers true c = finish-KeepsTimers c CommandStatus.succeeded none
  finish_observed-KeepsTimers false c =
      finish-KeepsTimers c CommandStatus.unknown (some "device_response_timeout")

  conclude_read-KeepsTimers :
      (c : Command) (ref : ProviderDeviceRef) (p : CommandParams) (r : ReadReply)
      → KeepsTimers P (conclude_read c ref p r)
  unfolding settle_observed
  conclude_read-KeepsTimers c ref p (ReadReply.observed seen) =
      bind-KeepsTimers (ingest ref seen StateSource.provider_snapshot (some c.correlation_id))
        (λ _. finish_observed (is_true (desired_matches c.action p seen.state)) c)
        (ingest-KeepsTimers ref seen StateSource.provider_snapshot (some c.correlation_id))
        (λ _. finish_observed-KeepsTimers (is_true (desired_matches c.action p seen.state)) c)
  conclude_read-KeepsTimers c ref p ReadReply.timed_out =
      finish-KeepsTimers c CommandStatus.unknown (some "reconciliation_failed")
  conclude_read-KeepsTimers c ref p (ReadReply.provider_error _) =
      finish-KeepsTimers c CommandStatus.unknown (some "reconciliation_failed")
  conclude_read-KeepsTimers c ref p ReadReply.raised =
      finish-KeepsTimers c CommandStatus.unknown (some "reconciliation_failed")

  module _ (a : Attempt) (others : OthersKeep a) where
    reconcile-KeepsTimers :
        (c : Command) (ref : ProviderDeviceRef) (p : CommandParams)
        → KeepsTimers P (reconcile a c ref p)
    unfolding reconcile publish_command
    reconcile-KeepsTimers c ref p g v =
        conclude_read-KeepsTimers c ref p a.readback _ (others.reading _ v)

    finish_outcome-KeepsTimers :
        (c : Command) (o : CommandOutcome) (code : Option String)
        → KeepsTimers P (finish_outcome c o code)
    finish_outcome-KeepsTimers c CommandOutcome.applied code =
        finish-KeepsTimers c CommandStatus.succeeded none
    finish_outcome-KeepsTimers c CommandOutcome.rejected code =
        finish-KeepsTimers c CommandStatus.failed (or_rejected code)
    finish_outcome-KeepsTimers c CommandOutcome.unknown code =
        finish-KeepsTimers c CommandStatus.unknown code

    ingest_result-KeepsTimers :
        (c : Command) (ref : ProviderDeviceRef) (s : Option ProviderState)
        → KeepsTimers P (ingest_result c ref s)
    ingest_result-KeepsTimers c ref none = λ g v. v
    ingest_result-KeepsTimers c ref (some s) =
        bind-KeepsTimers (ingest ref s StateSource.command_result (some c.correlation_id))
          (λ _. pure tt)
          (ingest-KeepsTimers ref s StateSource.command_result (some c.correlation_id)) (λ _ g v. v)

    conclude-KeepsTimers :
        (c : Command) (ref : ProviderDeviceRef) (p : CommandParams) (r : ExecuteReply)
        → KeepsTimers P (conclude a c ref p r)
    unfolding conclude
    conclude-KeepsTimers c ref p (ExecuteReply.returned r) =
        bind-KeepsTimers (ingest_result c ref r.state)
          (λ _. finish_outcome c r.outcome r.failure_code) (ingest_result-KeepsTimers c ref r.state)
          (λ _. finish_outcome-KeepsTimers c r.outcome r.failure_code)
    conclude-KeepsTimers c ref p ExecuteReply.timed_out = reconcile-KeepsTimers c ref p
    conclude-KeepsTimers c ref p (ExecuteReply.provider_error code) =
        finish-KeepsTimers c CommandStatus.failed (some code)
    conclude-KeepsTimers c ref p ExecuteReply.raised =
        finish-KeepsTimers c CommandStatus.failed (some "internal_error")

    lock-KeepsTimers : (i : ℕ) (g : Gateway) → P g.schedules → P (device_lock i g).1.schedules
    lock-KeepsTimers i g v =
        subst P (sym (ap (λ (h : Gateway). h.schedules) (device_lock_frame i g))) v

    execute_wired-KeepsTimers :
        (c : Command) (d : Device) (p : CommandParams) (ref : ProviderDeviceRef)
        → KeepsTimers P (execute_wired a c d p ref)
    unfolding execute_wired publish_command
    execute_wired-KeepsTimers c d p ref g v =
        conclude-KeepsTimers _ ref p a.reply _
          (others.executing _ (others.locked_out _ (lock-KeepsTimers d.id _ v)))

    execute_at-KeepsTimers :
        (b : Bool) (c : Command) (d : Device) (p : CommandParams) (ref : ProviderDeviceRef)
        → KeepsTimers P (execute_at b a c d p ref)
    execute_at-KeepsTimers true c d p ref = execute_wired-KeepsTimers c d p ref
    execute_at-KeepsTimers false c d p ref =
        finish-KeepsTimers c CommandStatus.failed (some "provider_unavailable")

    -- An execution keeps every property of the timers that other tasks keep.
    pub execute-KeepsTimers :
        (w : Wiring) (c : Command) (d : Device) (p : CommandParams)
        → KeepsTimers P (execute w a c d p)
    unfolding execute
    execute-KeepsTimers w c d p =
        bind-KeepsTimers (λ g. (ref_for g.registry d.id, g))
          (λ ref. execute_at (w.has_provider ref.provider) a c d p ref) (λ g v. v)
          (λ ref. execute_at-KeepsTimers (w.has_provider ref.provider) c d p ref)

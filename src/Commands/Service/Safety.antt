-- ===== src/Commands/Service/Safety.antt =====
-- The promises of the pipeline to the household (backend/src/homeflow/commands/service.py).
use homeflow.Base.{
  ℕ, ◌≡◌, refl, sym, ap, ◌∙◌, ◌≢◌, true, false, some, String, ◌↔◌, inl, inr, arith, [], ◌∷◌, ◌++◌,
}
use homeflow.Auth.{Principal}
use homeflow.Commands.Execution.{Attempt, execute, execute_at}
use homeflow.Commands.Execution.Outcome.{read_ending, ending, ending_at, execute-Concluded}
use homeflow.Commands.Execution.Trace.{IsAlone, execute_wired-Logged}
use homeflow.Commands.Models.{
  Action, Command, CommandParams, CommandStatus, RawParameters, model_validate,
}
use homeflow.Commands.Policy.{action_spec, classify}
use homeflow.Commands.Reconcile.{desired_matches}
use homeflow.Commands.Records.{requested_entry, completed_entry}
use homeflow.Commands.Service.{submit, is_high}
use homeflow.Commands.Service.Admission.{IsAdmissible}
use homeflow.Commands.Service.Submit.{
  IsRefused, requested, at_request, submit_admitted, submit_cases,
}
use homeflow.Commands.Sound.{IsSound, Keeps, remember-IsSound, same-IsSound}
use homeflow.Devices.Models.{Device}
use homeflow.Devices.Registry.{require, ref_for}
use homeflow.Errors.{ok, bind_ok}
use homeflow.Gateway.{Gateway, Wiring}
use homeflow.Integrations.{ProviderDeviceRef, ReadReply, ExecuteReply}

-- The state was read back, and it shows what was asked for.
abbrev pub ShowsDesired : Action → CommandParams → ReadReply → Type 0
ShowsDesired action p (ReadReply.observed seen) = desired_matches action p seen.state ≡ some true
ShowsDesired action p _ = ⊥

read_ending-ne-failed :
    (action : Action) (p : CommandParams) (r : ReadReply)
    → (read_ending action p r).0 ≢ CommandStatus.failed
read_ending-ne-failed action p (ReadReply.observed seen) = ground arith
read_ending-ne-failed action p ReadReply.timed_out = λ e. cc
read_ending-ne-failed action p _ = λ e. cc

read_ending-succeeded :
    (action : Action) (p : CommandParams) (r : ReadReply)
    → ((read_ending action p r).0 ≡ CommandStatus.succeeded) ↔ ShowsDesired action p r
read_ending-succeeded action p (ReadReply.observed seen) = ground arith
read_ending-succeeded action p ReadReply.timed_out = (λ e. cc, λ f. absurd f)
read_ending-succeeded action p _ = (λ e. cc, λ f. absurd f)

module _ (w : Wiring) (a : Attempt) (principal : Principal) (i : ℕ) (action : Action)
    (raw : RawParameters) (correlation_id : String) (g : Gateway) (sound : IsSound w.identity g)
    (keeps : Keeps w.identity a) where
  -- From a sound state, where other tasks keep the state sound, a valid request for an action of the
  -- risk class HIGH raises an error, and changes nothing but the audit trail: no command is created,
  -- no event published, no provider called.
  pub submit_high :
      (p : CommandParams)
      → model_validate w.coercion (action_spec action).params_model raw ≡ some p
      → is_high (classify action p) ≡ true
      → IsRefused w a principal i action raw correlation_id g
          (submit w a principal i action raw correlation_id g)
  submit_high p valid high =
      elim (submit_cases w a principal i action raw correlation_id g sound keeps) [
        | inl refused ↦ refused
        | inr x ↦
            let same : some x.params ≡ some p = sym x.admissible.valid ∙ valid in
            let q : x.params ≡ p = cc in
            let low : is_high (classify action p) ≡ false =
              ap (λ t. is_high (classify action t)) (sym q) ∙ x.admissible.released in
            absurd (cc)
      ]

  -- From a sound state, where other tasks keep it sound and meanwhile neither write to a provider nor
  -- to the audit trail, an admissible request on a wired provider returns a command, writes to the
  -- provider exactly once, through the handle of the device, and leaves exactly two audit records,
  -- the request and the completion. This holds however the provider answers, a timeout included.
  pub submit_once :
      IsAlone a
      → (d : Device) (p : CommandParams) (ref : ProviderDeviceRef) → require g.registry i ≡ ok d
      → IsAdmissible w d action raw p
      → ref_for g.registry d.id ≡ ok ref
      → w.has_provider ref.provider ≡ true
      → let r = submit w a principal i action raw correlation_id g in
        (c : Command) × (t : ℕ) × (r.0 ≡ ok c)
        × (r.1.writes ≡ g.writes ++ (ref, record { action = action; params = p }) ∷ [])
        × (r.1.recorded
            ≡ (g.recorded
                ++ requested_entry
                    (requested w a principal i action raw correlation_id g d p)
                    g.clock
                  ∷ [])
              ++ completed_entry c c.status c.failure_code t ∷ [])
  unfolding execute
  submit_once alone d p ref exists h routed wired =
      let c = requested w a principal i action raw correlation_id g d p in
      let start = at_request w a principal i action raw correlation_id g d p in
      let s = same-IsSound w.identity _ start refl refl (remember-IsSound w.identity g sound c) in
      let l = execute_wired-Logged w.identity a keeps alone start s c d p ref in
      let run : execute w a c d p start ≡ execute_at true a c d p ref start =
        bind_ok (λ h. (ref_for h.registry d.id, h))
          (λ r. execute_at (w.has_provider r.provider) a c d p r) start routed
        ∙ ap (λ b. execute_at b a c d p ref start) wired in
      rw (submit_admitted w a principal i action raw correlation_id g d p exists h, run)
        (l.command, l.at, l.returned, l.written, l.logged)

  -- From a sound state, where other tasks keep the state sound: when the provider does not answer in
  -- time, an admissible command on a wired provider is returned, and never as FAILED. It ends as SUCCEEDED exactly when the state that is read back once was observed
  -- and shows what was asked for.
  pub submit_timeout :
      a.reply ≡ ExecuteReply.timed_out
      → (d : Device) (p : CommandParams) (ref : ProviderDeviceRef) → require g.registry i ≡ ok d
      → IsAdmissible w d action raw p
      → ref_for g.registry d.id ≡ ok ref
      → w.has_provider ref.provider ≡ true
      → (c : Command) × ((submit w a principal i action raw correlation_id g).0 ≡ ok c)
        × (c.status ≢ CommandStatus.failed)
        × ((c.status ≡ CommandStatus.succeeded) ↔ ShowsDesired action p a.readback)
  submit_timeout late d p ref exists h routed wired =
      let c = requested w a principal i action raw correlation_id g d p in
      let start = at_request w a principal i action raw correlation_id g d p in
      let s = same-IsSound w.identity _ start refl refl (remember-IsSound w.identity g sound c) in
      let x = execute-Concluded w.identity a keeps w start s c d p ref routed in
      let e : x.command.status ≡ (read_ending action p a.readback).0 =
        x.status
        ∙ ap (λ b. (ending_at a b c p).0) wired
        ∙ ap (λ r. (ending action p r a.readback).0) late in
      rw (submit_admitted w a principal i action raw correlation_id g d p exists h) (
        x.command,
        x.returned,
        λ f. read_ending-ne-failed action p a.readback (sym e ∙ f),
        (
          λ f. (read_ending-succeeded action p a.readback).0 (sym e ∙ f),
          λ f. e ∙ (read_ending-succeeded action p a.readback).1 f,
        ),
      )

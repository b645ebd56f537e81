-- ===== src/Commands/Service/Submit.antt =====
-- What a submission does as a whole (backend/src/homeflow/commands/service.py).
use homeflow.Base.{
  ℕ, ◌≡◌, refl, Option, none, some, String, ◌⊎◌, inl, inr, arith, Option-cases, [], ◌∷◌, ◌++◌,
}
use homeflow.Base.Dict.{lookup}
use homeflow.Auth.{Principal}
use homeflow.Commands.Execution.{Attempt, execute}
use homeflow.Commands.Execution.Outcome.{ending_at, execute-Concluded}
use homeflow.Commands.Models.{Action, Command, CommandParams, RawParameters}
use homeflow.Commands.Policy.{classify}
use homeflow.Commands.Records.{create, new_command, store, requested_entry, command_event}
use homeflow.Commands.Service.{admit, submit}
use homeflow.Commands.Service.Admission.{
  IsAdmissible, after_refusal, audited, admit_accepts, admit_refuses,
}
use homeflow.Commands.Sound.{IsSound, Keeps, Concluded, remember-IsSound, same-IsSound}
use homeflow.Devices.Models.{Device}
use homeflow.Devices.Registry.{require, ref_for}
use homeflow.Errors.{Error, Result, ok, err}
use homeflow.Events.Models.{EventType}
use homeflow.Gateway.{Gateway, Wiring}
use homeflow.Integrations.{ProviderDeviceRef}

module _ (w : Wiring) (a : Attempt) (principal : Principal) (i : ℕ) (action : Action)
    (raw : RawParameters) (correlation_id : String) (g : Gateway) where
  -- The command as it is created, and the gateway then.
  abbrev pub requested : Device → CommandParams → Command
  requested d p =
      new_command a.new_id principal d action p (classify action p) correlation_id g.clock

  abbrev pub at_request : Device → CommandParams → Gateway
  at_request d p = record g {
    commands = store (requested d p) g.commands;
    recorded = g.recorded ++ requested_entry (requested d p) g.clock ∷ [];
    published =
        g.published ++ command_event EventType.command_requested (requested d p) g.clock ∷ [];
  }

  -- An admissible submission is created and executed.
  pub submit_admitted :
      (d : Device) (p : CommandParams)
      → require g.registry i ≡ ok d
      → IsAdmissible w d action raw p
      → submit w a principal i action raw correlation_id g
        ≡ execute w a (requested d p) d p (at_request d p)
  unfolding submit create
  submit_admitted d p e h =
      ground (arith, admit_accepts w principal d action raw correlation_id g p h)

  -- A submission for an unknown device is refused, and leaves no trace.
  pub submit_unknown :
      require g.registry i ≡ err Error.device_not_found
      → submit w a principal i action raw correlation_id g ≡ (err Error.device_not_found, g)
  unfolding submit
  submit_unknown e = ground arith

  pub submit_refused :
      (d : Device) (e : Error) (h : Gateway)
      → require g.registry i ≡ ok d
      → admit w principal d action raw correlation_id g ≡ (err e, h)
      → submit w a principal i action raw correlation_id g ≡ (err e, h)
  unfolding submit
  submit_refused d e h found refused = ground arith

  -- The submission was refused: at most an audit record is new.
  pub record IsRefused (r : Result Command × Gateway) : Type 0 where
    pub error : Error
    pub raised : r.0 ≡ err error
    pub unchanged : r.1 ≡ record g { recorded = r.1.recorded }

  -- The submission was admitted: the device exists, the request is admissible, and the command has
  -- ended as the answers of the provider say.
  pub record IsExecuted (r : Result Command × Gateway) : Type 0 where
    pub device : Device
    pub params : CommandParams
    pub ref : ProviderDeviceRef
    pub exists : require g.registry i ≡ ok device
    pub admissible : IsAdmissible w device action raw params
    pub routed : ref_for g.registry i ≡ ok ref
    pub concluded :
        Concluded w.identity a.new_id
          (ending_at a (w.has_provider ref.provider) (requested device params) params)
          r

  device_cases :
      (require g.registry i ≡ err Error.device_not_found)
      ⊎ ((d : Device) × (require g.registry i ≡ ok d) × (lookup i g.registry.devices ≡ some d))
  unfolding require
  device_cases = elim (Option-cases (lookup i g.registry.devices)) [
    | inl e ↦ inl (ground arith)
    | inr (d, e) ↦ inr (d, ground arith, e)
  ]

  submit-IsRefused :
      (e : Error) (h : Gateway)
      → h ≡ record g { recorded = h.recorded }
      → submit w a principal i action raw correlation_id g ≡ (err e, h)
      → IsRefused (submit w a principal i action raw correlation_id g)
  submit-IsRefused e h same q = rw q (record { error = e; raised = refl; unchanged = same })

  after_refusal_frame :
      (d : Device) (reason : Option String)
      → let h = after_refusal w principal d action raw correlation_id g reason in
        h ≡ record g { recorded = h.recorded }
  after_refusal_frame d none = refl
  after_refusal_frame d (some reason) = refl

  pub executed :
      (d : Device) (p : CommandParams)
      → IsSound w.identity g
      → Keeps w.identity a
      → require g.registry i ≡ ok d
      → lookup i g.registry.devices ≡ some d
      → IsAdmissible w d action raw p
      → IsExecuted (submit w a principal i action raw correlation_id g)
  unfolding ref_for
  executed d p s k e there h =
      let (ref, found) = s.registry.handled i d there in
      let same = s.registry.ids i d there in
      let start =
        same-IsSound w.identity _ (at_request d p) refl refl
          (remember-IsSound w.identity g s (requested d p)) in
      record {
        device = d;
        params = p;
        ref = ref;
        exists = e;
        admissible = h;
        routed = ground arith;
        concluded = rw (submit_admitted d p e h) (
            execute-Concluded w.identity a k w (at_request d p) start (requested d p) d p ref
              (ground arith));
      }

  -- From a sound state, where other tasks keep the state sound, every submission either raises an
  -- error and changes nothing but the audit trail, or its device exists, the request is admissible
  -- and routed to a handle, and it returns the command, stored and with the status and the failure
  -- code that the provider's answers determine.
  pub submit_cases :
      IsSound w.identity g
      → Keeps w.identity a
      → IsRefused (submit w a principal i action raw correlation_id g)
        ⊎ IsExecuted (submit w a principal i action raw correlation_id g)
  submit_cases s k = elim device_cases [
    | inl e ↦ inl (submit-IsRefused Error.device_not_found g refl (submit_unknown e))
    | inr (d, e, there) ↦ elim (admit_refuses w principal d action raw correlation_id g) [
      | inl (p, h) ↦ inr (executed d p s k e there h)
      | inr (x, q) ↦
          inl (submit-IsRefused x _ (after_refusal_frame d (audited x)) (submit_refused d x _ e q))
    ]
  ]

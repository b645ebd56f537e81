-- ===== src/Commands/Service/Admission.antt =====
-- The guards of `submit` (backend/src/homeflow/commands/service.py).
use homeflow.Base.{
  ◌≡◌, true, false, Option, none, some, [], ◌∷◌, ◌++◌, String, arith, ◌⊎◌, inl, inr, Bool-cases,
  Option-cases,
}
use homeflow.Auth.{Principal}
use homeflow.Commands.Models.{Action, CommandParams, RawParameters, model_validate}
use homeflow.Commands.Policy.{action_spec, classify, required_capability_for}
use homeflow.Commands.Records.{audit_denied, denied_entry}
use homeflow.Commands.Service.{validate, meets_constraints, check_constraints, admit, is_high}
use homeflow.Devices.Models.{Device, supports, is_offline}
use homeflow.Errors.{Error, ok, err}
use homeflow.Gateway.{Gateway, Wiring}

-- What the pipeline asks of a request before it touches a device.
pub record IsAdmissible (w : Wiring) (d : Device) (action : Action) (raw : RawParameters)
    (p : CommandParams) : Type 0 where
  pub valid : model_validate w.coercion (action_spec action).params_model raw ≡ some p
  pub capable : supports d (required_capability_for action p) ≡ true
  pub in_bounds : meets_constraints d p ≡ true
  pub released : is_high (classify action p) ≡ false
  pub reachable : is_offline d.availability ≡ false

-- The refusals that leave an audit record, with the reason that it gives.
abbrev pub audited : Error → Option String
audited Error.capability_not_supported = some "capability_not_supported"
audited Error.action_authorization_required = some "action_authorization_required"
audited Error.device_unavailable = some "device_unavailable"
audited _ = none

module _ (w : Wiring) (principal : Principal) (d : Device) (action : Action) (raw : RawParameters)
    (correlation_id : String) (g : Gateway) where
  -- The gateway after a refusal.
  abbrev pub after_refusal : Option String → Gateway
  after_refusal none = g
  after_refusal (some reason) = record g {
    recorded = g.recorded ++ denied_entry principal d action correlation_id reason g.clock ∷ [];
  }

  -- An admissible request passes the guards, which change nothing.
  pub admit_accepts :
      (p : CommandParams)
      → IsAdmissible w d action raw p
      → admit w principal d action raw correlation_id g ≡ (ok p, g)
  unfolding admit validate check_constraints
  admit_accepts p h = ground arith

  -- Every other request is refused, and at most one audit record is left.
  pub admit_refuses :
      ((p : CommandParams) × IsAdmissible w d action raw p)
      ⊎ ((e : Error) × (admit w principal d action raw correlation_id g
            ≡ (err e, after_refusal (audited e))))
  unfolding admit validate check_constraints audit_denied
  admit_refuses =
      elim (Option-cases (model_validate w.coercion (action_spec action).params_model raw)) [
        | inl e ↦ inr (Error.invalid_parameters, ground arith)
        | inr (p, e) ↦ elim (Bool-cases (supports d (required_capability_for action p))) [
          | inr q ↦ inr (Error.capability_not_supported, ground arith)
          | inl q ↦ elim (Bool-cases (meets_constraints d p)) [
            | inr m ↦ inr (Error.parameter_out_of_range, ground arith)
            | inl m ↦ elim (Bool-cases (is_high (classify action p))) [
              | inl r ↦ inr (Error.action_authorization_required, ground arith)
              | inr r ↦ elim (Bool-cases (is_offline d.availability)) [
                | inl o ↦ inr (Error.device_unavailable, ground arith)
                | inr o ↦ inl (
                  p,
                  record { valid = e; capable = q; in_bounds = m; released = r; reachable = o },
                )
              ]
            ]
          ]
        ]
      ]

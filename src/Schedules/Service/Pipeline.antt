-- ===== src/Schedules/Service/Pipeline.antt =====
-- The command pipeline as the submitter of the timers
-- (backend/src/homeflow/commands/service.py, backend/src/homeflow/schedules/service.py).
use homeflow.Base.{
  ℕ, ◌≡◌, refl, ◌⊎◌, ◌∙◌, sym, ap, subst, true, Bool-cases, Option, none, some, String, arith, inl,
  inr,
}
use homeflow.Auth.{Principal}
use homeflow.Commands.Execution.{Attempt}
use homeflow.Commands.Execution.Timers.{OthersKeep, execute-KeepsTimers}
use homeflow.Commands.Models.{Action, Command, CommandStatus, RawParameters}
use homeflow.Commands.Service.{submit}
use homeflow.Commands.Service.Admission.{admit_refuses, after_refusal, audited}
use homeflow.Commands.Service.Submit.{IsExecuted, submit_admitted, submit_refused, submit_cases}
use homeflow.Devices.Models.{Device}
use homeflow.Devices.Registry.{require}
use homeflow.Errors.{Result, ok, err, Result-cases}
use homeflow.Schedules.Models.{Schedule, ScheduleKind}
use homeflow.Schedules.Service.{
  Submitter, start_now, has_started, on_parameters, create, arm, new_schedule,
}
use homeflow.Schedules.Service.Arming.{
  Created, create-Created, check_cases, arm-commands, create_refused, create_not_started,
  create_arms,
}
use homeflow.Base.Dict.{lookup}
use homeflow.Base.Int.{ℤ}
use homeflow.Commands.Sound as Sound
use homeflow.Gateway.{Gateway, Wiring}
use homeflow.Schedules.Service.Invariant.{IsSound}

module _ (w : Wiring) (a : Attempt) (others : OthersKeep IsSound a) where
  refusal_keeps :
      (p : Principal) (d : Device) (action : Action) (raw : RawParameters) (c : String)
      (g : Gateway) (reason : Option String)
      → IsSound g.schedules
      → IsSound (after_refusal w p d action raw c g reason).schedules
  refusal_keeps p d action raw c g none v = v
  refusal_keeps p d action raw c g (some reason) v = v

  -- A submission to the command pipeline keeps the invariant of the timers, on every request and with
  -- every answer of the provider, if other tasks keep it while the submission waits.
  submit-IsSound :
      (p : Principal) (i : ℕ) (action : Action) (raw : RawParameters) (c : String) (g : Gateway)
      → IsSound g.schedules
      → IsSound (submit w a p i action raw c g).1.schedules
  unfolding submit
  submit-IsSound p i action raw c g v = elim (Result-cases (require g.registry i)) [
    | inr (e, q) ↦
        let same : g.schedules ≡ (submit w a p i action raw c g).1.schedules = ground arith in
        subst IsSound same v
    | inl (d, q) ↦ elim (admit_refuses w p d action raw c g) [
      | inr (e, r) ↦
          rw (submit_refused w a p i action raw c g d e _ q r)
            (refusal_keeps p d action raw c g (audited e) v)
      | inl (params, h) ↦
          rw (submit_admitted w a p i action raw c g d params q h)
            (execute-KeepsTimers IsSound a others w _ d params _ v)
    ]
  ]

-- With the pipeline as its submitter `create` keeps its promise.
create_submits :
    (w : Wiring) (a : Attempt) (max_hours new_id : ℕ) (p : Principal) (i : ℕ) (action : Action)
    (kind : ScheduleKind) (hours : ℤ) (c : String) (g : Gateway)
    → OthersKeep IsSound a
    → IsSound g.schedules
    → Created max_hours new_id i action kind hours
        (create (submit w a) max_hours new_id p i action kind hours c g)
create_submits w a max_hours new_id p i action kind hours c g others v =
    create-Created (submit w a) (submit-IsSound w a others) max_hours new_id p i action kind hours c
      g v

started_cases :
    (submit : Submitter) (p : Principal) (i : ℕ) (action : Action) (c : String) (g : Gateway)
    (command_id : Option ℕ)
    → (start_now submit ScheduleKind.run_for p i action c g).0 ≡ ok command_id
    → (command : Command) × ((submit p i action (on_parameters true) c g).0 ≡ ok command)
      × (command_id ≡ some command.id)
      × (has_started command.status ≡ true)
      × ((start_now submit ScheduleKind.run_for p i action c g).1
          ≡ (submit p i action (on_parameters true) c g).1)
unfolding start_now
started_cases submit p i action c g command_id h =
    elim (Result-cases (submit p i action (on_parameters true) c g).0) [
      | inr (e, q) ↦ ground arith
      | inl (command, q) ↦ elim (Bool-cases (has_started command.status)) [
        | inr no_ ↦ ground arith
        | inl yes_ ↦ (command, q, ground arith, yes_, ground arith)
      ]
    ]

-- The switch-on of "run for": the command that the timer names, executed and stored.
abbrev pub Started :
    Wiring → Attempt → Principal → ℕ → Action → String → Gateway → Schedule → Gateway → Type 0
Started w a p i action c g s h =
    let r = submit w a p i action (on_parameters true) c g in
    (command : Command) × (r.0 ≡ ok command)
    × (s.command_id ≡ some command.id)
    × (lookup command.id h.commands ≡ some command)
    × ((command.status ≡ CommandStatus.succeeded) ⊎ (command.status ≡ CommandStatus.unknown))
    × IsExecuted w a p i action (on_parameters true) c g r

started_status :
    (s : CommandStatus)
    → has_started s ≡ true
    → (s ≡ CommandStatus.succeeded) ⊎ (s ≡ CommandStatus.unknown)
started_status s h = ground arith

ok-injective : {A : Type 0} {x y : A} → ok x ≡ ok y → x ≡ y
ok-injective {x = x} e = ap (λ r. elim r [ ok z ↦ z | err _ ↦ x ]) e

module _ (w : Wiring) (a : Attempt) (p : Principal) (i : ℕ) (action : Action) (c : String)
    (g : Gateway) (sound : Sound.IsSound w.identity g) (keeps : Sound.Keeps w.identity a) where
  -- A submission that returns a command has executed it and stored it.
  returned-IsExecuted :
      (command : Command)
      → (submit w a p i action (on_parameters true) c g).0 ≡ ok command
      → (lookup command.id (submit w a p i action (on_parameters true) c g).1.commands
          ≡ some command)
        × IsExecuted w a p i action
            (on_parameters true)
            c
            g
            (submit w a p i action (on_parameters true) c g)
  returned-IsExecuted command q =
      elim (submit_cases w a p i action (on_parameters true) c g sound keeps) [
        | inl refused ↦ ground (arith, refused.raised)
        | inr executed ↦
            let done = executed.concluded in
            let same : done.command ≡ command = ok-injective (sym done.returned ∙ q) in
            (
              subst
                  (λ (x : Command).
                    lookup x.id (submit w a p i action (on_parameters true) c g).1.commands
                    ≡ some x)
                  same
                  (subst
                    (λ k.
                      lookup k (submit w a p i action (on_parameters true) c g).1.commands
                      ≡ some done.command)
                    (sym done.same_id) done.held),
              executed,
            )
      ]

  module _ (max_hours new_id : ℕ) (hours : ℤ) where
    started :
        (command_id : Option ℕ) (s : Schedule)
        → (start_now (submit w a) ScheduleKind.run_for p i action c g).0 ≡ ok command_id
        → s.command_id ≡ command_id
        → Started w a p i action c g s
            (arm s (start_now (submit w a) ScheduleKind.run_for p i action c g).1).1
    started command_id s q named =
        let (command, r, id, status, same) =
          started_cases (submit w a) p i action c g command_id q in
        let (stored, executed) = returned-IsExecuted command r in
        (
          command,
          r,
          named ∙ id,
          ap (λ d. lookup command.id d)
                (arm-commands s (start_now (submit w a) ScheduleKind.run_for p i action c g).1
                  ∙ ap (λ (x : Gateway). x.commands) same)
              ∙ stored,
          started_status command.status status,
          executed,
        )

    abbrev StartedBy : Result Schedule × Gateway → Type 0
    StartedBy (ok s, h) = Started w a p i action c g s h
    StartedBy (err e, h) = Unit

    -- Through the command pipeline, from a sound state that other tasks keep sound: a timer for RUN_FOR
    -- is returned only if its command, which switches the function on, was admitted and executed, is
    -- stored, and ended as SUCCEEDED or UNKNOWN; the timer names it.
    pub run_for-Started :
        (s : Schedule) (h : Gateway)
        → create (submit w a) max_hours new_id p i action ScheduleKind.run_for hours c g ≡ (ok s, h)
        → Started w a p i action c g s h
    unfolding new_schedule arm
    run_for-Started s h e = elim (check_cases max_hours p i action ScheduleKind.run_for hours c g) [
      | inr (x, k, q, _) ↦ ground (
        arith,
        create_refused (submit w a) max_hours new_id p i action ScheduleKind.run_for hours c g x k
            q,
      )
      | inl (delay, d, q, _, _) ↦
          elim (Result-cases (start_now (submit w a) ScheduleKind.run_for p i action c g).0) [
            | inr (x, r) ↦ ground (
              arith,
              create_not_started (submit w a) max_hours new_id p i action ScheduleKind.run_for hours
                  c g delay x q r,
            )
            | inl (command_id, r) ↦
                let k = (start_now (submit w a) ScheduleKind.run_for p i action c g).1 in
                let made =
                  new_schedule new_id p i action ScheduleKind.run_for delay c command_id k.clock in
                let all =
                  sym (
                    create_arms (submit w a) max_hours new_id p i action ScheduleKind.run_for hours
                      c g delay command_id q r)
                  ∙ e in
                subst StartedBy all (started command_id made r refl)
          ]
    ]

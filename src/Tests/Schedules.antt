-- ===== src/Tests/Schedules.antt =====
-- Runs of the theorems on timers.
use homeflow.Base.{ℕ, ◌≡◌, ◌≢◌, ◌≤◌, ◌*◌, refl, inl, true, some, none, [], ◌∷◌, arith, false, ◌↔◌}
use homeflow.Base.Int.{pos}
use homeflow.Base.Dict.{lookup, insert}
use homeflow.Commands.Models.{Action, Command, CommandParams, CommandStatus, RiskClass}
use homeflow.Tests.{gateway, user}
use homeflow.Errors.{ok, Error, err}
use homeflow.Gateway.{Gateway}
use homeflow.Schedules.Hours.{step_hours, IsNear, validate_hours, validate_hours_exact}
use homeflow.Schedules.Models.{Schedule, ScheduleKind, ScheduleStatus, settled, is_armed}
use homeflow.Schedules.Store.{due, armed, settle}
use homeflow.Schedules.Service.{arm, Submitter, create, fire, fire_safely, fire_all, tick, cancel}
use homeflow.Schedules.Service.Slots.{Fills, Updated, arm-Refines}
use homeflow.Schedules.Service.Invariant.{IsSound, In, insert_armed-IsSound}
use homeflow.Schedules.Service.Arming.{SubmitsSoundly, Created, create-Created}
use homeflow.Schedules.Service.Cancelling.{cancel-IsSound}
use homeflow.Schedules.Service.Firing.{
  Ends, fired, fire_safely_settles, tick-IsSound, fired_once, cancelled_still_fires,
}

abbrev done : Command
done = record {
  id = 3;
  device_id = 7;
  requested_by_user_id = 1;
  requested_by_client_id = 2;
  action = Action.set_heater;
  parameters = CommandParams.on_off true;
  risk_class = RiskClass.medium;
  correlation_id = "c";
  created_at = 1000;
  expires_at = 2000;
  started_at = some 1000;
  completed_at = some 1000;
  status = CommandStatus.succeeded;
  failure_code = none;
}

-- A pipeline that succeeds at once.
abbrev succeeds : Submitter
succeeds p i action raw c g = (ok done, g)

succeeds-SubmitsSoundly : SubmitsSoundly succeeds
succeeds-SubmitsSoundly p i action raw c g v = v

abbrev timer : ℕ → Action → Schedule
timer id action = record {
  id = id;
  device_id = 7;
  kind = ScheduleKind.delayed_start;
  action = action;
  desired = true;
  requested_by_user_id = 1;
  requested_by_client_id = 2;
  requested_by_display_name = "Ada";
  created_at = 100;
  due_at = 900;
  correlation_id = "c";
  status = ScheduleStatus.armed;
  failure_code = none;
  command_id = none;
}

abbrev heater : Schedule
heater = timer 5 Action.set_heater

abbrev pump : Schedule
pump = timer 6 Action.set_filter

empty-IsSound : IsSound []
empty-IsSound = record {
  unique = tt;
  keyed = λ i s h. cc;
  timed = λ i s h. cc;
  single = λ i j s t h. cc;
}

abbrev one_timer : Gateway
one_timer = record gateway { schedules = (5, heater) ∷ [] }

abbrev two_timers : Gateway
two_timers = record gateway { schedules = (5, heater) ∷ (6, pump) ∷ [] }

one_timer-IsSound : IsSound one_timer.schedules
one_timer-IsSound = insert_armed-IsSound [] heater empty-IsSound refl (λ i t h r. cc)

two_timers-IsSound : IsSound two_timers.schedules
two_timers-IsSound =
    insert_armed-IsSound one_timer.schedules pump one_timer-IsSound refl (λ i t h r. ground arith)

create-Created_example :
    Created 12000000000 4 7 Action.set_heater ScheduleKind.run_for (pos 1500000000) (
      create succeeds 12000000000 4 user 7 Action.set_heater ScheduleKind.run_for
        (pos 1500000000)
        "c"
        one_timer)
create-Created_example =
    create-Created succeeds succeeds-SubmitsSoundly 12000000000 4 user 7 Action.set_heater
      ScheduleKind.run_for (pos 1500000000) "c" one_timer one_timer-IsSound

fire_safely_settles_example :
    (lookup 5 (fire_safely succeeds heater two_timers).schedules ≡ some (fired heater (ok done)))
    × Ends (ok done) (fired heater (ok done)).status
fire_safely_settles_example = fire_safely_settles succeeds heater two_timers 5

tick-IsSound_example : IsSound (tick (λ i. succeeds) two_timers).schedules
tick-IsSound_example =
    tick-IsSound (λ i. succeeds) two_timers (λ i. succeeds-SubmitsSoundly) two_timers-IsSound

pump-due : In pump (due 1000 (fire_safely succeeds heater two_timers).schedules)
unfolding due armed fire_safely fire settle settled
pump-due = inl refl

fired_once_example : pump.id ≢ heater.id
fired_once_example =
    fired_once succeeds heater two_timers 1000 pump succeeds-SubmitsSoundly refl two_timers-IsSound
      pump-due

-- A pipeline that waits while the user cancels the other timer.
abbrev pump_cancelled : Schedule
pump_cancelled = record pump { status = ScheduleStatus.cancelled }

abbrev meanwhile : Submitter
meanwhile p i action raw c g =
    (ok done, record g { schedules = insert 6 pump_cancelled g.schedules })

cancelled_stored :
    lookup 6 (fire_safely meanwhile heater two_timers).schedules ≡ some pump_cancelled
cancelled_stored = (fire_safely_settles meanwhile heater two_timers 6).0

cancelled_still_fires_example :
    (lookup 6 (fire_all ((meanwhile, heater) ∷ (succeeds, pump) ∷ []) two_timers).schedules
      ≡ some (fired pump (ok done)))
    × ((fired pump (ok done)).status ≢ ScheduleStatus.cancelled)
cancelled_still_fires_example =
    cancelled_still_fires meanwhile succeeds heater pump pump_cancelled two_timers cancelled_stored
      refl

validate_hours_exact_example : (validate_hours 12000000000 (pos 1500000001) ≡ some 5400000000) ↔ (
    (k : ℕ) × IsNear (pos 1500000001) k
    × (5400000000 ≡ k * 1800000000)
    × (1 ≤ k)
    × (k * step_hours ≤ 12000000000))
validate_hours_exact_example = validate_hours_exact 12000000000 (pos 1500000001) 5400000000

cancel-IsSound_example :
    IsSound (cancel user 6 two_timers).1.schedules
    × ((s : Schedule)
        → (cancel user 6 two_timers).0 ≡ ok s
        → (lookup 6 (cancel user 6 two_timers).1.schedules ≡ some s) × (is_armed s.status ≡ false))
    × ((e : Error)
        → (cancel user 6 two_timers).0 ≡ err e
        → (cancel user 6 two_timers).1 ≡ two_timers)
cancel-IsSound_example = cancel-IsSound user 6 two_timers two_timers-IsSound

-- A new timer of the heater while the heater and the filter pump have one each.
abbrev later : Schedule
later = timer 9 Action.set_heater

arm-Refines_example :
    Fills (arm later two_timers).1.schedules 7 Action.set_filter pump
    ↔ Updated later (Fills two_timers.schedules) 7 Action.set_filter pump
arm-Refines_example =
    arm-Refines later two_timers two_timers-IsSound refl refl refl 7 Action.set_filter pump

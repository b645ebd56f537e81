-- ===== src/Schedules/Service.antt =====
-- Arming, cancelling and firing timers, `ScheduleService`
-- (backend/src/homeflow/schedules/service.py).
pub mod Invariant
pub mod Arming
pub mod Slots
pub mod Firing
pub mod Cancelling
pub mod Pipeline
use homeflow.Base.{
  ℕ, ◌+◌, Bool, true, false, not, ◌||◌, Option, none, some, List, [], ◌∷◌, String, if◌then◌else◌,
}
use homeflow.Base.Int.{ℤ}
use homeflow.Auth.{Principal}
use homeflow.Commands.Models.{
  Action, Action-discrete, Command, CommandParams, CommandStatus, Json, RawParameters,
}
use homeflow.Commands.Policy.{classify, required_capability_for}
use homeflow.Commands.Service.{is_high}
use homeflow.Audit.{AuditEntry, Context}
use homeflow.Devices.Models.{supports}
use homeflow.Devices.Service.{require_device}
use homeflow.Errors.{
  Error, Result, ok, err, pure, raise, gets, modify, or_raise, raise_if, problem_type, ◌>>=◌, ◌>>◌,
}
use homeflow.Events.Models.{EventType}
use homeflow.Gateway.{Gateway, Call, record_entry}
use homeflow.Schedules.Hours.{validate_hours}
use homeflow.Schedules.Models.{Schedule, ScheduleKind, ScheduleStatus, is_armed}
use homeflow.Schedules.Store.{get, for_device, due, settle, remember, announce}

-- `CommandSubmitter`: the one way a timer is allowed to reach a device.
abbrev pub Submitter : Type 0
Submitter = Principal → ℕ → Action → RawParameters → String → Call Command

-- `action in TIMED_ACTIONS`
abbrev pub is_timed : Action → Bool
is_timed Action.set_heater = true
is_timed Action.set_filter = true
is_timed _ = false

abbrev pub is_delayed_start : ScheduleKind → Bool
is_delayed_start ScheduleKind.delayed_start = true
is_delayed_start ScheduleKind.run_for = false

-- `{"on": value}`
abbrev pub on_parameters : Bool → RawParameters
on_parameters v = ("on", Json.bool v) ∷ []

-- `_audit_denied`
denied : Principal → ℕ → Action → String → String → Error → Call (Unit {0})
denied principal device_id action correlation_id reason e g =
    (record_entry (record {
      occurred_at = g.clock;
      event = "schedule.denied";
      actor_user_id = some principal.user_id;
      actor_client_id = some principal.client_id;
      device_id = some device_id;
      command_id = none;
      action = some action;
      risk_class = none;
      outcome = some reason;
      correlation_id = some correlation_id;
      context = Context.empty;
    })
        >> raise e)
      g

-- A guard of `create` that leaves an audit record behind.
deny_if : Bool → Principal → ℕ → Action → String → String → Error → Call (Unit {0})
unfolding denied
deny_if true principal device_id action correlation_id reason e =
    denied principal device_id action correlation_id reason e
deny_if false principal device_id action correlation_id reason e = pure tt

-- `command.status in (SUCCEEDED, UNKNOWN)`
abbrev pub has_started : CommandStatus → Bool
has_started CommandStatus.succeeded = true
has_started CommandStatus.unknown = true
has_started _ = false

-- The attended command of "run for": its identifier, or the refusal.
unfoldable pub start_now :
    Submitter → ScheduleKind → Principal → ℕ → Action → String → Call (Option ℕ)
start_now submit ScheduleKind.delayed_start principal device_id action correlation_id = pure none
start_now submit ScheduleKind.run_for principal device_id action correlation_id = do
  command ← submit principal device_id action (on_parameters true) correlation_id
  raise_if (not (has_started command.status)) Error.device_unavailable
  pure (some command.id)

-- `existing.action is action`
abbrev pub same_action : Action → Action → Bool
same_action a b = elim (Action-discrete a b) [ yes _ ↦ true | no _ ↦ false ]

-- One turn of the loop over the timers of the device.
abbrev pub supersede_one : Bool → Schedule → Gateway → Gateway
supersede_one true s g = (settle s ScheduleStatus.superseded none none none g).1
supersede_one false s g = g

-- The timers of the same function are superseded.
unfoldable pub supersede : Action → List Schedule → Gateway → Gateway
supersede action [] g = g
supersede action (s ∷ l) g = supersede action l (supersede_one (same_action s.action action) s g)

-- The last part of `create`, which waits for nothing.
unfoldable pub arm : Schedule → Call Schedule
arm s g =
    let cleared = supersede s.action (for_device s.device_id g.schedules) g in
    (
      ok s,
      announce s "schedule.created" none EventType.schedule_armed
          (record cleared { schedules = remember s cleared.schedules }),
    )

unfoldable pub new_schedule :
    ℕ → Principal → ℕ → Action → ScheduleKind → ℕ → String → Option ℕ → ℕ → Schedule
new_schedule new_id principal device_id action kind delay correlation_id command_id now = record {
  id = new_id;
  device_id = device_id;
  kind = kind;
  action = action;
  desired = is_delayed_start kind;
  requested_by_user_id = principal.user_id;
  requested_by_client_id = principal.client_id;
  requested_by_display_name = principal.display_name;
  created_at = now;
  due_at = now + delay;
  correlation_id = correlation_id;
  status = ScheduleStatus.armed;
  failure_code = none;
  command_id = command_id;
}

-- The guards of `create`, in order: the delay.
unfoldable pub check : ℕ → Principal → ℕ → Action → ScheduleKind → ℤ → String → Call ℕ
unfolding deny_if
check max_hours principal device_id action kind hours correlation_id = do
  device ← require_device device_id
  deny_if (not (is_timed action)) principal device_id action correlation_id "not_schedulable"
      Error.capability_not_supported
  delay ← or_raise (validate_hours max_hours hours) Error.parameter_out_of_range
  let wanted = CommandParams.on_off (is_delayed_start kind)
  deny_if (not (supports device (required_capability_for action wanted))) principal device_id action
      correlation_id "capability_not_supported" Error.capability_not_supported
  raise_if (is_high (classify action wanted)) Error.action_authorization_required
  pure delay

unfoldable pub create :
    Submitter → ℕ → ℕ → Principal → ℕ → Action → ScheduleKind → ℤ → String → Call Schedule
unfolding start_now
create submit max_hours new_id principal device_id action kind hours correlation_id = do
  delay ← check max_hours principal device_id action kind hours correlation_id
  command_id ← start_now submit kind principal device_id action correlation_id
  now ← gets (λ g. g.clock)
  arm (new_schedule new_id principal device_id action kind delay correlation_id command_id now)

-- `cancel`, for a timer that was found.
cancel_found : Principal → Schedule → Call Schedule
cancel_found principal s = elim (is_armed s.status) [
  | false ↦ pure s
  | true ↦ settle s ScheduleStatus.cancelled none none (some principal)
]

unfoldable pub cancel : Principal → ℕ → Call Schedule
unfolding cancel_found
cancel principal schedule_id = do s ← get schedule_id; cancel_found principal s

-- The principal on whose behalf a timer fires.
abbrev pub principal_of : Schedule → Principal
principal_of s = record {
  user_id = s.requested_by_user_id;
  client_id = s.requested_by_client_id;
  display_name = s.requested_by_display_name;
}

-- What the status of the command makes of the timer.
abbrev pub fired_status : CommandStatus → ScheduleStatus
fired_status CommandStatus.succeeded = ScheduleStatus.completed
fired_status CommandStatus.unknown = ScheduleStatus.unknown
fired_status _ = ScheduleStatus.failed

-- `except HomeFlowError`: any other exception goes on.
settle_error : Schedule → Error → Option String → Call (Unit {0})
settle_error s e none = raise e
settle_error s e (some code) = settle s ScheduleStatus.failed (some code) none none >> pure tt

settle_fired : Schedule → Result Command → Call (Unit {0})
unfolding settle_error
settle_fired s (err e) = settle_error s e (problem_type e)
settle_fired s (ok c) = settle s (fired_status c.status) c.failure_code (some c.id) none >> pure tt

unfoldable pub fire : Submitter → Schedule → Call (Unit {0})
unfolding settle_fired
fire submit s g =
    let (r, g') =
      submit (principal_of s) s.device_id s.action (on_parameters s.desired) s.correlation_id g in
    settle_fired s r g'

-- `try: await self.fire(schedule)`, with the handler of any other exception.
unfoldable pub fire_safely : Submitter → Schedule → Gateway → Gateway
fire_safely submit s g =
    let (r, g') = fire submit s g in
    elim r [
      | ok _ ↦ g'
      | err _ ↦ (settle s ScheduleStatus.failed (some "internal_error") none none g').1
    ]

-- The loop over the timers that `_due` found. Each waits in its own way.
unfoldable pub fire_all : List (Submitter × Schedule) → Gateway → Gateway
fire_all [] g = g
fire_all ((submit, s) ∷ l) g = fire_all l (fire_safely submit s g)

-- One turn of `run`, with a submitter for each of its waits: `_due` is asked once.
abbrev pair_up : (ℕ → Submitter) → List Schedule → List (Submitter × Schedule)
pair_up submits [] = []
pair_up submits (s ∷ l) = (submits s.id, s) ∷ pair_up submits l

unfoldable pub tick : (ℕ → Submitter) → Gateway → Gateway
tick submits g = fire_all (pair_up submits (due g.clock g.schedules)) g

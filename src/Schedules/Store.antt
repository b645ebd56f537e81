-- ===== src/Schedules/Store.antt =====
-- The store of timers and its bookkeeping (backend/src/homeflow/schedules/service.py).
pub mod Eviction
use homeflow.Base.{
  ℕ, zero, suc, ◌≤◌, Bool, true, false, Option, none, some, List, [], ◌∷◌, ◌++◌, String, length,
  leb, ltb, ◌==◌, if◌then◌else◌, keep,
}
use homeflow.Base.Dict.{Dict, lookup, insert}
use homeflow.Audit.{AuditEntry, Context}
use homeflow.Auth.{Principal}
use homeflow.Commands.Models.{Action, RiskClass}
use homeflow.Errors.{Error, ok, pure, gets, modify, or_raise, ◌>>=◌, ◌>>◌}
use homeflow.Events.Models.{DomainEvent, EventType, Payload}
use homeflow.Gateway.{Gateway, Call, publish, record_entry}
use homeflow.Schedules.Models.{Schedule, ScheduleStatus, is_armed, settled}

-- `_MAX_TRACKED`
abbrev pub max_tracked : ℕ
max_tracked = 200

abbrev pub values : Dict Schedule → List Schedule
values [] = []
values ((k, s) ∷ d) = s ∷ values d

unfoldable pub get : ℕ → Call Schedule
get schedule_id = do
  found ← gets (λ g. lookup schedule_id g.schedules)
  or_raise found Error.schedule_not_found

unfoldable pub armed : Dict Schedule → List Schedule
armed d = keep (λ s. is_armed s.status) (values d)

-- `sorted(..., key=due_at)`, which is stable.
abbrev pub insert_due : Schedule → List Schedule → List Schedule
insert_due s [] = s ∷ []
insert_due s (t ∷ l) = if leb s.due_at t.due_at then s ∷ t ∷ l else t ∷ insert_due s l

abbrev pub sort_due : List Schedule → List Schedule
sort_due [] = []
sort_due (s ∷ l) = insert_due s (sort_due l)

unfoldable pub for_device : ℕ → Dict Schedule → List Schedule
unfolding armed
for_device device_id d = sort_due (keep (λ s. s.device_id == device_id) (armed d))

-- `_due`
unfoldable pub due : ℕ → Dict Schedule → List Schedule
unfolding armed
due now d = keep (λ s. leb s.due_at now) (armed d)

abbrev pub status_value : ScheduleStatus → String
status_value ScheduleStatus.armed = "ARMED"
status_value ScheduleStatus.completed = "COMPLETED"
status_value ScheduleStatus.cancelled = "CANCELLED"
status_value ScheduleStatus.superseded = "SUPERSEDED"
status_value ScheduleStatus.failed = "FAILED"
status_value ScheduleStatus.unknown = "UNKNOWN"

-- `f"schedule.{status.value.lower()}"`
abbrev pub settled_event : ScheduleStatus → String
settled_event ScheduleStatus.armed = "schedule.armed"
settled_event ScheduleStatus.completed = "schedule.completed"
settled_event ScheduleStatus.cancelled = "schedule.cancelled"
settled_event ScheduleStatus.superseded = "schedule.superseded"
settled_event ScheduleStatus.failed = "schedule.failed"
settled_event ScheduleStatus.unknown = "schedule.unknown"

abbrev actor_user : Option Principal → Schedule → ℕ
actor_user none s = s.requested_by_user_id
actor_user (some p) s = p.user_id

abbrev actor_client : Option Principal → Schedule → ℕ
actor_client none s = s.requested_by_client_id
actor_client (some p) s = p.client_id

-- The record that `_record` makes.
abbrev pub timer_entry : Schedule → String → Option Principal → ℕ → AuditEntry
timer_entry s event actor now = record {
  occurred_at = now;
  event = event;
  actor_user_id = some (actor_user actor s);
  actor_client_id = some (actor_client actor s);
  device_id = some s.device_id;
  command_id = s.command_id;
  action = some s.action;
  risk_class = some RiskClass.medium;
  outcome = some (status_value s.status);
  correlation_id = some s.correlation_id;
  context = Context.timer s.kind s.desired s.due_at;
}

-- The event that `_publish` makes.
abbrev pub timer_event : Schedule → EventType → ℕ → DomainEvent
timer_event s t now = record {
  type = t;
  occurred_at = now;
  device_id = some s.device_id;
  command_id = none;
  correlation_id = some s.correlation_id;
  payload = Payload.schedule s.id s.status;
}

-- The gateway after `_record` and `_publish`.
abbrev pub announce : Schedule → String → Option Principal → EventType → Gateway → Gateway
announce s event actor t g = record g {
  recorded = g.recorded ++ timer_entry s event actor g.clock ∷ [];
  published = g.published ++ timer_event s t g.clock ∷ [];
}

-- `_settle`. Its callers pass a settled status.
unfoldable pub settle :
    Schedule → ScheduleStatus → Option String → Option ℕ → Option Principal → Call Schedule
settle s status failure_code command_id actor g =
    let done = settled s status failure_code command_id in
    (
      ok done,
      announce done (settled_event status) actor EventType.schedule_settled
          (record g { schedules = insert done.id done g.schedules }),
    )

-- The oldest timer that is not armed is deleted; `none` if all are armed.
unfoldable pub drop_settled : Dict Schedule → Option (Dict Schedule)
drop_settled [] = none
drop_settled ((k, s) ∷ d) =
    let rest : Option (Dict Schedule) = elim (drop_settled d) [
      | none ↦ none
      | some d' ↦ some ((k, s) ∷ d')
    ] in
    if is_armed s.status then rest else some d

-- `while len(self._schedules) > _MAX_TRACKED`, on as many rounds as there are timers.
unfoldable pub evict : ℕ → Dict Schedule → Dict Schedule
evict zero d = d
evict (suc fuel) d = elim (ltb max_tracked (length d)) [
  | false ↦ d
  | true ↦ elim (drop_settled d) [ none ↦ d | some d' ↦ evict fuel d' ]
]

-- `_remember`
unfoldable pub remember : Schedule → Dict Schedule → Dict Schedule
remember s d = evict (length (insert s.id s d)) (insert s.id s d)

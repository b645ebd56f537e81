-- ===== src/Schedules/Models.antt =====
-- Timers (backend/src/homeflow/schedules/models.py).
use homeflow.Base.{ℕ, Bool, true, false, Option, String}
use homeflow.Commands.Models.{Action}

pub data ScheduleKind : Type 0 where
  delayed_start run_for : ScheduleKind

pub data ScheduleStatus : Type 0 where
  armed completed cancelled superseded failed unknown : ScheduleStatus

-- `status is ScheduleStatus.ARMED`
abbrev pub is_armed : ScheduleStatus → Bool
is_armed ScheduleStatus.armed = true
is_armed _ = false

pub record Schedule : Type 0 where
  pub id : ℕ
  pub device_id : ℕ
  pub kind : ScheduleKind
  pub action : Action
  pub desired : Bool
  pub requested_by_user_id : ℕ
  pub requested_by_client_id : ℕ
  pub requested_by_display_name : String
  pub created_at : ℕ
  pub due_at : ℕ
  pub correlation_id : String
  pub status : ScheduleStatus
  pub failure_code : Option String
  pub command_id : Option ℕ

unfoldable pub settled : Schedule → ScheduleStatus → Option String → Option ℕ → Schedule
settled s status code command = record s {
  status = status;
  failure_code = code;
  command_id = command;
}

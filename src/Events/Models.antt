-- ===== src/Events/Models.antt =====
-- Normalised internal events (backend/src/homeflow/events/models.py).
use homeflow.Base.{ℕ, Option, String}
use homeflow.Commands.Models.{Action, CommandStatus}
use homeflow.Schedules.Models.{ScheduleStatus}

pub data EventType : Type 0 where
  device_discovered device_availability_changed device_state_changed : EventType
  command_requested command_started command_succeeded command_failed : EventType
  command_timed_out : EventType
  doorbell_pressed motion_detected : EventType
  appliance_program_started appliance_program_finished : EventType
  pool_temperature_changed pool_target_temperature_changed : EventType
  thermostat_state_changed : EventType
  schedule_armed schedule_settled : EventType

-- The dictionaries that the services put into `payload`.
pub data Payload : Type 0 where
  empty : Payload
  command : CommandStatus → Action → Payload
  schedule : ℕ → ScheduleStatus → Payload

pub record DomainEvent : Type 0 where
  pub type : EventType
  pub occurred_at : ℕ
  pub device_id : Option ℕ
  pub command_id : Option ℕ
  pub correlation_id : Option String
  pub payload : Payload

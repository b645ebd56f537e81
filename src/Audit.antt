-- ===== src/Audit.antt =====
-- Audit records (backend/src/homeflow/audit/log.py). The entry's own random `id` is left out.
pub mod Log
use homeflow.Base.{ℕ, Option, Bool, String}
use homeflow.Commands.Models.{Action, CommandParams, RiskClass}
use homeflow.Schedules.Models.{ScheduleKind}

pub data Context : Type 0 where
  empty : Context
  request : CommandParams → Context
  failure : String → Context
  timer : ScheduleKind → Bool → ℕ → Context

pub record AuditEntry : Type 0 where
  pub occurred_at : ℕ
  pub event : String
  pub actor_user_id : Option ℕ
  pub actor_client_id : Option ℕ
  pub device_id : Option ℕ
  pub command_id : Option ℕ
  pub action : Option Action
  pub risk_class : Option RiskClass
  pub outcome : Option String
  pub correlation_id : Option String
  pub context : Context

-- ===== src/Integrations.antt =====
-- Data exchanged with a provider adapter (backend/src/homeflow/integrations/base).
pub mod Flow
use homeflow.Base.{ℕ, Option, String, List}
use homeflow.Capabilities.{DeviceKind, Capability}
use homeflow.Commands.Models.{Action, CommandParams}
use homeflow.Devices.Models.{Availability, DeviceConstraints, DeviceState}

pub record ProviderDeviceRef : Type 0 where
  pub provider : ℕ
  pub provider_device_id : ℕ

pub record ProviderDevice : Type 0 where
  pub ref : ProviderDeviceRef
  pub suggested_name : String
  pub kind : DeviceKind
  pub capabilities : List Capability
  pub room_hint : Option String
  pub constraints : DeviceConstraints

pub record ProviderState : Type 0 where
  pub state : DeviceState
  pub availability : Availability
  pub observed_at : ℕ

pub record ProviderCommand : Type 0 where
  pub action : Action
  pub params : CommandParams

pub data CommandOutcome : Type 0 where
  applied rejected unknown : CommandOutcome

pub record ProviderCommandResult : Type 0 where
  pub outcome : CommandOutcome
  pub state : Option ProviderState
  pub failure_code : Option String

-- How `provider.execute` ends within the time limit: it returns, the limit passes, or it raises a
-- `ProviderError` with its failure code or any other exception.
pub data ExecuteReply : Type 0 where
  returned : ProviderCommandResult → ExecuteReply
  timed_out : ExecuteReply
  provider_error : String → ExecuteReply
  raised : ExecuteReply

-- How `provider.get_state` ends.
pub data ReadReply : Type 0 where
  observed : ProviderState → ReadReply
  timed_out : ReadReply
  provider_error : String → ReadReply
  raised : ReadReply

-- ===== src/Commands/Policy.antt =====
-- Required capability, parameter schema and risk class (backend/src/homeflow/commands/policy.py).
pub mod Risk
use homeflow.Capabilities.{Capability}
use homeflow.Commands.Models.{Action, CommandParams, ParamsModel, RiskClass}
use homeflow.Devices.Models.{LockState}

pub record ActionSpec : Type 0 where
  pub required_capability : Capability
  pub params_model : ParamsModel
  pub base_risk : RiskClass

abbrev spec : Capability → ParamsModel → RiskClass → ActionSpec
spec c m r = record { required_capability = c; params_model = m; base_risk = r }

-- `ACTION_SPECS`, which has an entry for every action.
unfoldable pub action_spec : Action → ActionSpec
action_spec Action.set_power = spec Capability.power ParamsModel.on_off RiskClass.low
action_spec Action.set_brightness = spec Capability.brightness ParamsModel.brightness RiskClass.low
action_spec Action.set_volume = spec Capability.volume ParamsModel.volume RiskClass.low
action_spec Action.set_playback = spec Capability.media_playback ParamsModel.playback RiskClass.low
action_spec Action.set_target_temperature =
    spec Capability.target_temperature ParamsModel.target_temperature RiskClass.medium
action_spec Action.set_heater = spec Capability.heating ParamsModel.on_off RiskClass.medium
action_spec Action.set_filter = spec Capability.filter ParamsModel.on_off RiskClass.medium
action_spec Action.set_bubbles = spec Capability.bubbles ParamsModel.on_off RiskClass.medium
action_spec Action.set_control_panel_lock =
    spec Capability.control_panel_lock ParamsModel.on_off RiskClass.medium
action_spec Action.set_lock_state = spec Capability.lock ParamsModel.lock_state RiskClass.medium
action_spec Action.unlatch = spec Capability.unlatch ParamsModel.no_params RiskClass.high

-- The branch of `SET_LOCK_STATE`. Its `assert` holds of validated parameters.
abbrev lock_risk : CommandParams → RiskClass
lock_risk (CommandParams.lock_state LockState.unlocked) = RiskClass.high
lock_risk _ = RiskClass.medium

unfoldable pub classify : Action → CommandParams → RiskClass
unfolding action_spec
classify Action.set_lock_state p = lock_risk p
classify action p = (action_spec action).base_risk

abbrev lock_capability : CommandParams → Capability
lock_capability (CommandParams.lock_state LockState.unlocked) = Capability.unlock
lock_capability _ = Capability.lock

unfoldable pub required_capability_for : Action → CommandParams → Capability
unfolding action_spec
required_capability_for Action.set_lock_state p = lock_capability p
required_capability_for action p = (action_spec action).required_capability

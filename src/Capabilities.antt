-- ===== src/Capabilities.antt =====
-- The capability vocabulary (backend/src/homeflow/capabilities/models.py).
use homeflow.Base.{Bool, true, false, List, [], ◌∷◌}

pub data DeviceKind : Type 0 where
  light media_player lock doorbell camera intercom thermostat pool : DeviceKind
  washing_machine dishwasher voice_assistant sensor switch : DeviceKind

pub data Capability : Type 0 where
  power brightness color color_temperature : Capability
  media_playback media_next media_previous volume grouping : Capability
  lock unlock unlatch : Capability
  live_video doorbell_events motion_events : Capability
  current_temperature target_temperature heating filter bubbles control_panel_lock : Capability
  hvac_mode humidity : Capability
  program_status program_actions remaining_time : Capability
  announcement text_command : Capability

unfoldable pub Capability-discrete : Discrete Capability
Capability-discrete = hlevel

-- `capability in capabilities`
unfoldable pub contains : Capability → List Capability → Bool
contains c [] = false
contains c (x ∷ xs) = elim (Capability-discrete c x) [ yes _ ↦ true | no _ ↦ contains c xs ]

-- ===== src/HomeAssistant.antt =====
-- The adapter of Home Assistant (backend/src/homeflow/integrations/home_assistant).
pub mod Entities
pub mod States
pub mod Matching
pub mod Provider
pub mod Execution

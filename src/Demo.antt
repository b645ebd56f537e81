-- ===== src/Demo.antt =====
-- The synthetic household of demo mode (backend/src/homeflow/integrations/demo/provider.py).
pub mod Simulation
pub mod Household
pub mod Interlock
pub mod Finishing

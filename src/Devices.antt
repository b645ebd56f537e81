-- ===== src/Devices.antt =====
-- The devices of the household: the canonical model, the registry, and the service that keeps it.
pub mod Models
pub mod Registry
pub mod Service

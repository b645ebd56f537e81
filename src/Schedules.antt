-- ===== src/Schedules.antt =====
-- One-shot timers: their model and the service that arms, cancels and fires them.
pub mod Models
pub mod Hours
pub mod Store
pub mod Service

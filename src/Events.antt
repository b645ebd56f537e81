-- ===== src/Events.antt =====
-- Domain events and the bus that carries them.
pub mod Models
pub mod Bus
pub mod Stream

-- ===== src/Bestway.antt =====
-- The local adapter of the AirJet controller.
pub mod Protocol
pub mod Datapoints
pub mod Client
pub mod Provider

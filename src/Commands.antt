-- ===== src/Commands.antt =====
-- Semantic commands: their models, the policy table, reconciliation and the mutation pipeline.
pub mod Models
pub mod Policy
pub mod Reconcile
pub mod Records
pub mod Locks
pub mod Execution
pub mod Sound
pub mod Service

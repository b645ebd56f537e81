-- ===== src/Auth.antt =====
-- Household identity (backend/src/homeflow/auth).
pub mod Tickets
pub mod Registry
use homeflow.Base.{ℕ, String}

pub record Principal : Type 0 where
  pub user_id : ℕ
  pub client_id : ℕ
  pub display_name : String

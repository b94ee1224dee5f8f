-- ===== src/Database.antt =====
-- backend/internal/database/database.go: the log entry, and the parts that read and write tables.
pub mod Batch
pub mod Migrations
pub mod Analytics
pub mod Limits
pub mod Reference
mod Examples
use vegait.Prelude.{ℕ, Bool, String}

-- LogEntry. A status code, a latency in milliseconds and a time are never negative here.
pub record LogEntry : Type 0 where
  pub client_id : String
  pub endpoint : String
  pub status_code : ℕ
  pub latency_ms : ℕ
  pub is_allowed : Bool
  pub timestamp : ℕ

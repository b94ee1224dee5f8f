-- ===== src/Limiter.antt =====
-- backend/internal/limiter/limiter.go: the Redis sliding window, and what surrounds it.
pub mod Redis
pub mod Script
pub mod Member
pub mod Manager
pub mod Allow
pub mod Atomics
pub mod Examples

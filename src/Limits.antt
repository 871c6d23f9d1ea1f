-- ===== src/Limits.antt =====
-- The admission guards of internal/httpapi/agent_limits.go.
pub mod Buckets
pub mod Window
pub mod Weighted
pub mod SyncGate
mod Examples

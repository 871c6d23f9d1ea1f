-- ===== src/PackagePlan.antt =====
-- The guard of locked package transactions of internal/action/package_plan_guard.go.
pub mod Names
pub mod Plan
pub mod Guard
pub mod Files
mod Examples

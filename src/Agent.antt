-- ===== src/Agent.antt =====
-- The agent of internal/agent.
pub mod Queue
mod Examples

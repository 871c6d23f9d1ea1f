-- ===== src/Helper.antt =====
-- The privileged helper, cmd/witshield-helper: its receipt cache and its request handler.
pub mod Files
pub mod Capacity
pub mod Receipts
pub mod Server
mod Examples

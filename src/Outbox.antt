-- ===== src/Outbox.antt =====
-- The notification outbox of internal/store/notification_outbox.go.
pub mod Leases
pub mod Enqueue
pub mod Worker
pub mod Rules
pub mod Spared
pub mod Backlog
pub mod Keys
pub mod Attempts
pub mod WorkerEnds
mod Examples

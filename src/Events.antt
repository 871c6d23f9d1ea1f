-- ===== src/Events.antt =====
-- The bounded tables of security events: internal/store/security_events.go, and AddSecurityEvent of
-- internal/store/settings_actions_defense.go.
pub mod Rows
pub mod Trim
pub mod Retention
pub mod Windows
pub mod Counts
pub mod Bounds
pub mod Increments
pub mod WindowCounts
pub mod WindowCapacity
pub mod SameWindows
pub mod WindowBounds
pub mod Samples
pub mod Signal
pub mod Calls
pub mod Rules
pub mod Examples
pub mod Sequences

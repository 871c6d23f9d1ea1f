-- ===== src/Bans.antt =====
-- What follows a counted login failure: the rest of ProcessSecurityEvent of internal/store/security_events.go,
-- with the protected addresses of internal/action/ip_ban.go.
pub mod Targets
pub mod Verdict
pub mod Process
pub mod Verdicts
pub mod Hourly
pub mod Recorded
pub mod Examples

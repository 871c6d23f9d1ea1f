-- ===== src/Defense.antt =====
-- The brute-force defense of internal/defense.
pub mod Correlator
mod Examples

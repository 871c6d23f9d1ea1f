-- ===== src/Engine.antt =====
-- The action engine of internal/action/engine.go, over the types of internal/action/types.go.
pub mod Types
pub mod Seal
pub mod Lifecycle
pub mod Requests
mod Examples
pub mod Toy
pub mod Local

-- ===== src/Workers.antt =====
-- workers/src/runtime: how a worker talks to the backend.
pub mod Client
pub mod Retry
pub mod Harness

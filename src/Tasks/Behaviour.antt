-- ===== src/Tasks/Behaviour.antt =====
-- What the calls of `TaskService` do, on every branch.
pub mod Assigning
pub mod Claiming
pub mod Finishing
pub mod Reaping
pub mod Paging

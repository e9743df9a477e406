-- ===== src/Tasks/Invariant.antt =====
-- Every operation of `TaskService` keeps the employees and the tasks in agreement.
mod Freeing
mod Creation
mod Finishing
mod Claiming
pub use Creation.*
pub use Finishing.*
pub use Claiming.*

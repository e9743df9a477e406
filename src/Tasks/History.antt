-- ===== src/Tasks/History.antt =====
-- No operation of `TaskService` loses a task, gives it to another employee, or moves its status
-- off the drawn life of a task.
mod Later
mod Calls
pub use Later.{Follows, follow_refl, follow_trans}
pub use Calls.*

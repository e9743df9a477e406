-- ===== src/Tasks.antt =====
-- backend/src/tasks: the domain of tasks and activities, the state machine and `TaskService`.
pub mod Domain
pub mod StateMachine
pub mod Repository
pub mod Responses
pub mod Service
pub mod Routes
pub mod Invariant
pub mod History
pub mod Behaviour

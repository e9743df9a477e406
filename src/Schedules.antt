-- ===== src/Schedules.antt =====
-- backend/src/schedules: the domain of schedules and `ScheduleService`.
pub mod Domain
pub mod Repository
pub mod Clock
pub mod Service
pub mod Due
pub mod Claims

-- ===== src/Tasks/Routes.antt =====
-- The routes of backend/src/tasks/router.py that workers call and that have a body, with the limits
-- that backend/src/tasks/schemas.py sets on it. A body beyond them is answered with status 422, and
-- the service is not called.
use mini_company.Prelude.{
  ℕ, Bool, true, false, Option, none, some, ◌&&◌, leb, length, if◌then◌else◌,
}
use mini_company.Prelude.Text.{Text}
use mini_company.Tasks.Domain.{
  ActivityLevel, TaskStatus, cancelled, failed, queued, running, succeeded,
}
use mini_company.Tasks.Responses.{ActivityResponse, TaskResponse}
use mini_company.Tasks.Service.{add_activity, finish_task}
use mini_company.Company.World.{Action, Runtime, raise, request_invalid}

-- `str | None = Field(default=None, max_length=1000)`
abbrev pub fits : Option Text → Bool
fits none = true
fits (some text) = leb (length text) 1000

-- `Literal[TaskStatus.SUCCEEDED, TaskStatus.FAILED]`
abbrev pub is_outcome : TaskStatus → Bool
is_outcome queued = false
is_outcome running = false
is_outcome succeeded = true
is_outcome failed = true
is_outcome cancelled = false

-- Whether a body is a `FinishTaskRequest`.
unfoldable pub accepts_finish : TaskStatus → Option Text → Option Text → Bool
accepts_finish status summary error = is_outcome status && fits summary && fits error

-- Whether the message of a body is one of an `AddActivityRequest`.
unfoldable pub accepts_activity : Text → Bool
accepts_activity message = leb 1 (length message) && leb (length message) 500

module _ (runtime : Runtime) where
  -- `finish_task`, the route
  unfoldable pub finish_route : ℕ → TaskStatus → Option Text → Option Text → Action TaskResponse
  unfolding accepts_finish
  finish_route task_id status summary error =
      if accepts_finish status summary error
      then finish_task runtime task_id status summary error
      else raise request_invalid

  -- `add_activity`, the route
  unfoldable pub add_activity_route : ℕ → ActivityLevel → Text → Action ActivityResponse
  unfolding accepts_activity
  add_activity_route task_id level message =
      if accepts_activity message
      then add_activity runtime task_id level message
      else raise request_invalid

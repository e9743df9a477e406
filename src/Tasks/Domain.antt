-- ===== src/Tasks/Domain.antt =====
-- backend/src/tasks/constants.py and domain.py. Object ids and instants (microseconds since the
-- epoch, in UTC) are numbers, texts are lists of code points.
use mini_company.Prelude.{ℕ, Bool, Option, ◌==◌}
use mini_company.Prelude.Text.{Text}

-- `class TaskStatus(StrEnum)`
pub data TaskStatus : Type 0 where
  queued running succeeded failed cancelled : TaskStatus

-- The position of a status in its enumeration, by which `==` and `is` compare.
abbrev pub status_rank : TaskStatus → ℕ
status_rank queued = 0
status_rank running = 1
status_rank succeeded = 2
status_rank failed = 3
status_rank cancelled = 4

abbrev pub status_eq : TaskStatus → TaskStatus → Bool
status_eq a b = status_rank a == status_rank b

-- `class ActivityLevel(StrEnum)`
pub data ActivityLevel : Type 0 where
  info warn error : ActivityLevel

-- `class Task(BaseModel)`. A task that is not saved yet has no id.
pub record Task : Type 0 where
  pub id : Option ℕ
  pub employee_id : ℕ
  pub kind : Text
  pub title : Option Text
  pub status : TaskStatus
  pub summary : Option Text
  pub started_at : Option ℕ
  pub finished_at : Option ℕ
  pub error : Option Text
  pub created_at : ℕ

-- `class Activity(BaseModel)`
pub record Activity : Type 0 where
  pub id : Option ℕ
  pub employee_id : ℕ
  pub task_id : Option ℕ
  pub level : ActivityLevel
  pub message : Text
  pub occurred_at : ℕ

-- ===== src/Tasks/Responses.antt =====
-- backend/src/tasks/schemas.py and backend/src/pagination.py: what the service returns. An id that
-- the code turns into a string stays the id.
use mini_company.Prelude.{ℕ, Option, List, [], ◌∷◌}
use mini_company.Prelude.Text.{Text}
use mini_company.Tasks.Domain.{TaskStatus, ActivityLevel, Task, Activity}
use mini_company.Company.World.{Action, pure, or_raise, value_error, ◌>>=◌}

pub record TaskResponse : Type 0 where
  pub id : ℕ
  pub employee_id : ℕ
  pub kind : Text
  pub title : Option Text
  pub status : TaskStatus
  pub summary : Option Text
  pub started_at : Option ℕ
  pub finished_at : Option ℕ
  pub error : Option Text
  pub created_at : ℕ

-- `TaskResponse.from_domain`
unfoldable pub task_response : Task → Action TaskResponse
task_response task = do
  i ← or_raise task.id value_error
  pure (record {
    id = i;
    employee_id = task.employee_id;
    kind = task.kind;
    title = task.title;
    status = task.status;
    summary = task.summary;
    started_at = task.started_at;
    finished_at = task.finished_at;
    error = task.error;
    created_at = task.created_at;
  })

pub record ActivityResponse : Type 0 where
  pub id : ℕ
  pub employee_id : ℕ
  pub task_id : Option ℕ
  pub level : ActivityLevel
  pub message : Text
  pub occurred_at : ℕ

-- `ActivityResponse.from_domain`
unfoldable pub activity_response : Activity → Action ActivityResponse
activity_response activity = do
  i ← or_raise activity.id value_error
  pure (record {
    id = i;
    employee_id = activity.employee_id;
    task_id = activity.task_id;
    level = activity.level;
    message = activity.message;
    occurred_at = activity.occurred_at;
  })

-- `[f(x) for x in xs]` for an `f` that may raise.
unfoldable pub for_each : {A B : Type 0} → (A → Action B) → List A → Action (List B)
for_each f [] = pure []
for_each f (x ∷ xs) = do y ← f x; ys ← for_each f xs; pure (y ∷ ys)

-- `CursorPage`
pub record CursorPage (A : Type 0) : Type 0 where
  pub items : List A
  pub next_cursor : Option Text

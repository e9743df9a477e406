-- ===== src/Tasks/Repository.antt =====
-- The repositories of tasks and activities behind `TaskService`, as
-- backend/tests/fakes/task_repository.py implements their protocols.
use mini_company.Prelude.{
  ℕ, Bool, true, Option, none, some, List, [], ◌∷◌, not, ◌&&◌, ◌||◌, ltb, ◌==◌, if◌then◌else◌, keep,
  sorted_by, take,
}
use mini_company.Prelude.Dict.{lookup, insert, values}
use mini_company.Tasks.Domain.{TaskStatus, queued, running, status_eq, Task, Activity}
use mini_company.Company.World.{
  Runtime, Action, pure, gets, or_raise, modify, value_error, ◌>>=◌, ◌>>◌, draw_id,
}

-- `get`
unfoldable pub get_task : ℕ → Action (Option Task)
get_task task_id = gets (λ w. lookup task_id w.tasks)

-- `self._by_id[task.id] = task`
unfoldable pub put_task : ℕ → Task → Action Task
put_task i task = modify (λ w. record w { tasks = insert i task w.tasks }) >> pure task

-- A task that has run since before the moment.
unfoldable pub is_stale : ℕ → Task → Bool
is_stale moment task =
    status_eq task.status running
    && (elim task.started_at [ none ↦ not true | some started ↦ ltb started moment ])

-- `list_running_started_before`
unfoldable pub list_running_started_before : ℕ → Action (List Task)
unfolding is_stale
list_running_started_before moment = gets (λ w. keep (is_stale moment) (values w.tasks))

-- `min(queued, key=created_at)`: the first of those that were created earliest.
unfoldable pub earliest : List Task → Option Task
earliest [] = none
earliest (task ∷ tasks) = elim (earliest tasks) [
  | none ↦ some task
  | some other ↦ some (if ltb other.created_at task.created_at then other else task)
]

-- The number in an id, where the store has set one.
abbrev pub id_or_zero : Option ℕ → ℕ
id_or_zero none = 0
id_or_zero (some i) = i

-- `(at, id) < (at', id')` on pairs of an instant and an id.
abbrev pub is_before : ℕ → Option ℕ → ℕ → Option ℕ → Bool
is_before at id at' id' = ltb at at' || (at == at' && ltb (id_or_zero id) (id_or_zero id'))

abbrev pub matches {ℓ} : {A : Type ℓ} → (A → A → Bool) → Option A → A → Bool
matches eq none a = true
matches eq (some b) a = eq a b

-- `list`: the matching tasks, latest first, by id where they were created at once.
unfoldable pub list_matching : Option ℕ → Option TaskStatus → Action (List Task)
list_matching employee_id status = gets (λ w.
    sorted_by (λ s t. not (is_before s.created_at s.id t.created_at t.id))
      (keep (λ t. matches ◌==◌ employee_id t.employee_id && matches status_eq status t.status)
        (values w.tasks)))

-- `get` of the activities
unfoldable pub get_activity : ℕ → Action (Option Activity)
get_activity activity_id = gets (λ w. lookup activity_id w.activities)

-- Latest first, by id where they happened at once.
unfoldable pub recent_first : List Activity → List Activity
recent_first = sorted_by (λ a b. not (is_before a.occurred_at a.id b.occurred_at b.id))

-- `list_by_employee`
unfoldable pub list_by_employee : ℕ → ℕ → Option Activity → Action (List Activity)
unfolding recent_first
list_by_employee employee_id limit none = gets (λ w.
    take limit (recent_first (keep (λ a. a.employee_id == employee_id) (values w.activities))))
list_by_employee employee_id limit (some before) = do
  before_id ← or_raise before.id value_error
  gets λ w. take limit (
      keep (λ a. is_before a.occurred_at a.id before.occurred_at (some before_id))
        (recent_first (keep (λ a. a.employee_id == employee_id) (values w.activities))))

module _ (runtime : Runtime) where
  -- `save`: a task without an id gets one.
  unfoldable pub save_task : Task → Action Task
  unfolding put_task
  save_task task = elim task.id [
    | none ↦ do i ← draw_id runtime; put_task i (record task { id = some i })
    | some i ↦ put_task i task
  ]

  -- `claim_oldest_queued`: one step, which no other claim can come between.
  unfoldable pub claim_oldest_queued : ℕ → Action (Option Task)
  unfolding earliest put_task
  claim_oldest_queued started_at = do
    oldest ← gets (λ w. earliest (keep (λ t. status_eq t.status queued) (values w.tasks)))
    elim oldest [
      | none ↦ pure none
      | some task ↦ do
        let claimed = record task { status = running; started_at = some started_at }
        i ← or_raise claimed.id value_error
        put_task i claimed
        pure (some claimed)
    ]

  -- `append` of an activity
  unfoldable pub append_activity : Activity → Action Activity
  append_activity activity = elim activity.id [
    | none ↦ do
      i ← draw_id runtime
      let stored = record activity { id = some i }
      modify (λ w. record w { activities = insert i stored w.activities })
      pure stored
    | some i ↦ do
      modify (λ w. record w { activities = insert i activity w.activities })
      pure activity
  ]

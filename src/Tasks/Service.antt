-- ===== src/Tasks/Service.antt =====
-- backend/src/tasks/service.py: `class TaskService`, one action for each method. Logging has no
-- effect on the stores and is left out.
use mini_company.Prelude.{
  ℕ, ◌+◌, ◌-◌, Bool, not, Option, none, some, List, [], ◌∷◌, ◌++◌, length, take, ltb, ◌==◌,
  if◌then◌else◌, is_some, points_to,
}
use mini_company.Prelude.Text.{Text, codes, clean_title}
use mini_company.Tasks.Domain.{
  TaskStatus, queued, running, failed, cancelled, status_eq, ActivityLevel, Task, Activity,
}
use mini_company.Tasks.StateMachine.{can_transition}
use mini_company.Tasks.Repository.{
  get_task, list_running_started_before, list_matching, get_activity, list_by_employee, save_task,
  claim_oldest_queued, append_activity,
}
use mini_company.Tasks.Responses.{
  TaskResponse, task_response, ActivityResponse, activity_response, for_each, CursorPage,
}
use mini_company.Employees.Domain.{Employee, EmployeeStatus, working, idle}
use mini_company.Employees.Repository.{get_employee, save_employee}
use mini_company.Realtime.Schemas.{employee_status_changed, activity_created}
use mini_company.Company.World.{
  Runtime, Action, Result, ok, err, pure, or_raise, raise_if, publish, now, ◌>>=◌, ◌>>◌,
  employee_not_found, task_not_found, invalid_task_transition, employee_busy,
  invalid_pagination_cursor, value_error,
}

-- `list_tasks`
unfoldable pub list_tasks : Option ℕ → Option TaskStatus → Action (List TaskResponse)
unfolding list_matching for_each task_response
list_tasks employee_id status = do
  tasks ← list_matching employee_id status
  for_each task_response tasks

-- `_publish_status`
unfoldable pub publish_status : Employee → Action Unit
publish_status employee = elim employee.id [
  | none ↦ pure tt
  | some i ↦ publish (
      employee_status_changed (record {
        employee_id = i;
        status = employee.status;
        current_task_id = employee.current_task_id;
      }))
]

-- The last element, `page_items[-1]`.
abbrev pub last {ℓ} : {A : Type ℓ} → List A → Option A
last [] = none
last (x ∷ xs) = elim (last xs) [ none ↦ some x | some y ↦ some y ]

-- `Task(...)` as `assign_task` and `start_task` make it
abbrev pub new_task : ℕ → Text → Option Text → TaskStatus → Option ℕ → ℕ → Task
new_task employee_id kind title status started_at created_at = record {
  id = none;
  employee_id = employee_id;
  kind = kind;
  title = clean_title title;
  status = status;
  summary = none;
  started_at = started_at;
  finished_at = none;
  error = none;
  created_at = created_at;
}

module _ (runtime : Runtime) where
  -- `str(activity.id)`
  abbrev pub cursor_of : Activity → Text
  cursor_of activity = elim activity.id [ none ↦ codes "None" | some i ↦ runtime.show_id i ]

  -- `_resolve_cursor`
  unfoldable pub resolve_cursor : ℕ → Option Text → Action (Option Activity)
  unfolding get_activity
  resolve_cursor employee_id none = pure none
  resolve_cursor employee_id (some cursor) = do
    cursor_id ← or_raise (runtime.parse_id cursor) invalid_pagination_cursor
    activity ← or_raise (← get_activity cursor_id) invalid_pagination_cursor
    raise_if (not (activity.employee_id == employee_id)) invalid_pagination_cursor
    pure (some activity)

  -- `next_cursor` of `list_activities`
  unfoldable pub next_cursor : ℕ → List Activity → Option Text
  next_cursor limit activities =
      if ltb limit (length activities)
      then (elim (last (take limit activities)) [ none ↦ none | some a ↦ some (cursor_of a) ])
      else none

  -- `list_activities`
  unfoldable pub list_activities : ℕ → ℕ → Option Text → Action (CursorPage ActivityResponse)
  unfolding resolve_cursor list_by_employee next_cursor get_employee for_each activity_response
  list_activities employee_id limit cursor = do
    or_raise (← get_employee employee_id) employee_not_found
    before ← resolve_cursor employee_id cursor
    activities ← list_by_employee employee_id (limit + 1) before
    items ← for_each activity_response (take limit activities)
    pure (record { items = items; next_cursor = next_cursor limit activities })

  -- `assign_task`
  unfoldable pub assign_task : ℕ → Text → Option Text → Action TaskResponse
  unfolding get_employee list_matching save_task task_response
  assign_task employee_id kind title = do
    employee ← or_raise (← get_employee employee_id) employee_not_found
    raise_if (is_some employee.current_task_id) employee_busy
    pending ← list_matching (some employee_id) (some queued)
    raise_if (ltb 0 (length pending)) employee_busy
    created_at ← now runtime
    task ← save_task runtime (new_task employee_id kind title queued none created_at)
    task_response task

  -- `cancel_task`
  unfoldable pub cancel_task : ℕ → Action TaskResponse
  unfolding get_task save_task task_response
  cancel_task task_id = do
    task ← or_raise (← get_task task_id) task_not_found
    raise_if (not (status_eq task.status queued)) invalid_task_transition
    finished_at ← now runtime
    saved ← save_task runtime (record task { status = cancelled; finished_at = some finished_at })
    task_response saved

  -- The rest of `claim_next_task` once a task is claimed.
  unfoldable pub hand_over : Task → Action (Option TaskResponse)
  unfolding get_employee save_employee save_task publish_status task_response
  hand_over task = do
    found ← get_employee task.employee_id
    elim found [
      | none ↦ do
        finished_at ← now runtime
        save_task runtime (record task {
          status = cancelled;
          finished_at = some finished_at;
          error = some (codes "담당 직원이 존재하지 않습니다");
        })
        pure none
      | some employee ↦ do
        saved ←
            save_employee runtime (record employee { status = working; current_task_id = task.id })
        publish_status saved
        response ← task_response task
        pure (some response)
    ]

  -- `claim_next_task`
  unfoldable pub claim_next_task : Action (Option TaskResponse)
  unfolding claim_oldest_queued hand_over
  claim_next_task = do
    started_at ← now runtime
    claimed ← claim_oldest_queued runtime started_at
    elim claimed [ none ↦ pure none | some task ↦ hand_over task ]

  -- `start_task`
  unfoldable pub start_task : ℕ → Text → Option Text → Action TaskResponse
  unfolding get_employee save_employee save_task publish_status task_response
  start_task employee_id kind title = do
    employee ← or_raise (← get_employee employee_id) employee_not_found
    raise_if (is_some employee.current_task_id) employee_busy
    at ← now runtime
    task ← save_task runtime (new_task employee_id kind title running (some at) at)
    saved ← save_employee runtime (record employee { status = working; current_task_id = task.id })
    publish_status saved
    task_response task

  -- `add_activity`
  unfoldable pub add_activity : ℕ → ActivityLevel → Text → Action ActivityResponse
  unfolding get_task append_activity activity_response
  add_activity task_id level message = do
    task ← or_raise (← get_task task_id) task_not_found
    at ← now runtime
    activity ← append_activity runtime (record {
      id = none;
      employee_id = task.employee_id;
      task_id = task.id;
      level = level;
      message = message;
      occurred_at = at;
    })
    publish (
        activity_created (record {
          employee_id = activity.employee_id;
          task_id = activity.task_id;
          level = activity.level;
          message = activity.message;
          occurred_at = activity.occurred_at;
        }))
    activity_response activity

  -- `employee is not None and employee.current_task_id == task.id`
  abbrev holds : Employee → Task → Bool
  holds employee task = elim task.id [
    | none ↦ not (is_some employee.current_task_id)
    | some i ↦ points_to employee.current_task_id i
  ]

  -- The part of `finish_task` that gives the employee back.
  unfoldable pub release : Task → TaskStatus → Action Unit
  unfolding get_employee save_employee publish_status
  release task outcome = do
    found ← get_employee task.employee_id
    elim found [
      | none ↦ pure tt
      | some employee ↦
          if holds employee task
          then (do
            saved ← save_employee runtime (record employee {
              status = if status_eq outcome failed then EmployeeStatus.error else idle;
              current_task_id = none;
            })
            publish_status saved)
          else pure tt
    ]

  -- `finish_task`
  unfoldable pub finish_task : ℕ → TaskStatus → Option Text → Option Text → Action TaskResponse
  unfolding get_task save_task release task_response
  finish_task task_id outcome summary error = do
    task ← or_raise (← get_task task_id) task_not_found
    raise_if (not (can_transition task.status outcome)) invalid_task_transition
    at ← now runtime
    finished ←
        save_task runtime (record task {
          status = outcome;
          finished_at = some at;
          summary = summary;
          error = error;
        })
    release task outcome
    task_response finished

  -- The text of `error` for a task that was reaped.
  abbrev pub reaped_error : ℕ → Text
  reaped_error timeout = runtime.show_seconds timeout ++ codes "초를 넘겨 자동 회수됨"

  -- `except AppError`: a `ValueError` is none and goes on.
  abbrev pub collect : Result TaskResponse → List TaskResponse → Result (List TaskResponse)
  collect (ok response) reaped = ok (reaped ++ response ∷ [])
  collect (err value_error) reaped = err value_error
  collect (err e) reaped = ok reaped

  -- The loop of `reap_stale_tasks` over the stale tasks.
  unfoldable pub reap_each : ℕ → List Task → List TaskResponse → Action (List TaskResponse)
  reap_each timeout [] reaped w = (ok reaped, w)
  reap_each timeout (task ∷ stale) reaped w = elim task.id [
    | none ↦ reap_each timeout stale reaped w
    | some i ↦
        let (r, w') = finish_task i cancelled none (some (reaped_error timeout)) w in
        elim (collect r reaped) [
          | ok reaped' ↦ reap_each timeout stale reaped' w'
          | err e ↦ (err e, w')
        ]
  ]

  -- `reap_stale_tasks`
  unfoldable pub reap_stale_tasks : ℕ → Action (List TaskResponse)
  unfolding list_running_started_before reap_each
  reap_stale_tasks timeout = do
    at ← now runtime
    stale ← list_running_started_before (at - timeout)
    reap_each timeout stale []

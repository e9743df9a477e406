-- ===== src/Workers/Harness.antt =====
-- workers/src/runtime/harness.py and `run_once` of workers/src/agent.py. The workflows are
-- parameters: calls of the backend that return a summary or raise.
pub mod Ending
use mini_company.Prelude.{ℕ, Bool, true, false, Option, none, some, List, ◌++◌}
use mini_company.Prelude.Text.{Text, codes, get}
use mini_company.Tasks.Domain.{TaskStatus, ActivityLevel, succeeded, failed, error}
use mini_company.Tasks.Responses.{TaskResponse}
use mini_company.Tasks.Service.{claim_next_task}
use mini_company.Tasks.Routes.{add_activity_route, finish_route}
use mini_company.Workers.Client.{
  Call, Delivery, Failure, Reply, connect_error, connect_timeout, interrupted, nothing_tried,
  raised, read_timeout, request, returned, status_error, workflow_failed,
}
use mini_company.Workers.Retry.{with_connection_retry}
use mini_company.Company.World.{Runtime, Action}

abbrev pub Workflow : Type 0
Workflow = TaskResponse → Call Text

-- What a worker is given; `describe` is `f"{type(exc).__name__}: {exc}"`.
pub record Worker : Type 0 where
  pub network : ℕ → Delivery
  pub max_attempts : ℕ
  pub workflows : List (Text × Workflow)
  pub describe : Failure → Text

-- The rest of a call, for what it returned.
abbrev pub then_call : {A B : Type 0} → Call A → (A → Call B) → Call B
then_call call rest c =
    let (r, c') = call c in elim r [ returned a ↦ rest a c' | raised e ↦ (raised e, c') ]

module _ (runtime : Runtime) (worker : Worker) where
  -- `_send`
  unfoldable pub send : {A : Type 0} → Action A → Call A
  unfolding with_connection_retry request
  send action = with_connection_retry (request worker.network action) worker.max_attempts

  -- `except Exception`: everything but an interruption.
  abbrev pub log_failure : Reply TaskResponse → Reply Unit
  log_failure (returned response) = returned tt
  log_failure (raised connect_error) = returned tt
  log_failure (raised connect_timeout) = returned tt
  log_failure (raised read_timeout) = returned tt
  log_failure (raised status_error) = returned tt
  log_failure (raised nothing_tried) = returned tt
  log_failure (raised workflow_failed) = returned tt
  log_failure (raised interrupted) = raised interrupted

  -- `_finish_safely`
  unfoldable pub finish_safely : ℕ → TaskStatus → Option Text → Option Text → Call Unit
  unfolding send finish_route
  finish_safely task_id status summary reason c =
      let (r, c') = send (finish_route runtime task_id status summary reason) c in
      (log_failure r, c')

  -- What `_finishing` does with what the body came to: what it raised is raised again.
  unfoldable pub conclude : ℕ → Reply (Option Text) → Call Unit
  unfolding finish_safely
  conclude task_id (returned summary) c = finish_safely task_id succeeded summary none c
  conclude task_id (raised e) c =
      then_call (finish_safely task_id failed none (some (worker.describe e)))
        (λ done c'. (raised e, c')) c

  -- `_finishing`, around a body that returns the summary of the context
  unfoldable pub finishing : ℕ → Call (Option Text) → Call Unit
  unfolding conclude
  finishing task_id body c = let (r, c') = body c in conclude task_id r c'

  -- `log_error` of the context
  unfoldable pub log_error : ℕ → Text → Call Unit
  unfolding send add_activity_route
  log_error task_id message =
      then_call (send (add_activity_route runtime task_id error message))
        (λ activity c. (returned tt, c))

  -- The body of `_execute`
  abbrev pub work : Workflow → TaskResponse → Call (Option Text)
  work workflow task = then_call (workflow task) (λ summary c. (returned (some summary), c))

  -- `_execute`: an exception ends in the log, but an interruption.
  abbrev pub survive : Reply Unit → Reply Unit
  survive (returned u) = returned u
  survive (raised connect_error) = returned tt
  survive (raised connect_timeout) = returned tt
  survive (raised read_timeout) = returned tt
  survive (raised status_error) = returned tt
  survive (raised nothing_tried) = returned tt
  survive (raised workflow_failed) = returned tt
  survive (raised interrupted) = raised interrupted

  unfoldable pub execute : TaskResponse → Workflow → Call Unit
  unfolding finishing
  execute task workflow c =
      let (r, c') = finishing task.id (work workflow task) c in (survive r, c')

  -- `raise UnknownWorkflow(task.kind)`, in the harness
  unfoldable pub reject : TaskResponse → Call (Option Text)
  unfolding log_error
  reject task =
      then_call (log_error task.id (codes "실행할 수 없는 작업 종류입니다: " ++ task.kind))
        (λ done c. (raised workflow_failed, c))

  -- `run_once`
  unfoldable pub run_once : Call Bool
  unfolding send claim_next_task execute finishing reject get
  run_once = then_call (send (claim_next_task runtime)) (λ claimed. elim claimed [
    | none ↦ λ c. (returned false, c)
    | some task ↦ elim (get task.kind worker.workflows) [
      | none ↦ then_call (finishing task.id (reject task)) (λ done c. (returned true, c))
      | some workflow ↦ then_call (execute task workflow) (λ done c. (returned true, c))
    ]
  ])

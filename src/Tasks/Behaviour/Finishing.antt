-- ===== src/Tasks/Behaviour/Finishing.antt =====
-- `finish_task`.
use mini_company.Prelude.{
  ℕ, ◌≡◌, inl, inr, Option, none, some, points_to, if◌then◌else◌, Option-cases, arith,
}
use mini_company.Prelude.Text.{Text}
use mini_company.Prelude.Dict.{Dict, lookup, insert}
use mini_company.Tasks.Domain.{TaskStatus, failed, status_eq, Task}
use mini_company.Tasks.StateMachine.{can_transition}
use mini_company.Tasks.Service.{finish_task}
use mini_company.Employees.Domain.{Employee, EmployeeStatus, idle}
use mini_company.Company.World.{
  Runtime, World, task_not_found, invalid_task_transition, Error, error_of,
}
use mini_company.Company.Consistent.{Consistent}

-- Why a task cannot be finished with an outcome, if it cannot.
abbrev pub refusal : ℕ → TaskStatus → World → Option Error
refusal i outcome w = elim (lookup i w.tasks) [
  | none ↦ some task_not_found
  | some t ↦ if can_transition t.status outcome then none else some invalid_task_transition
]

-- The employees once a task of an employee has ended: it is free, and in ERROR after a failure
-- alone, if that task was its current one.
abbrev pub freed : ℕ → ℕ → TaskStatus → Dict Employee → Dict Employee
freed employee_id i outcome employees = elim (lookup employee_id employees) [
  | none ↦ employees
  | some e ↦
      if points_to e.current_task_id i
      then insert employee_id
          (record e {
            status = if status_eq outcome failed then EmployeeStatus.error else idle;
            current_task_id = none;
          })
          employees
      else employees
]

-- What has become of the stores when a task was there.
abbrev pub HasEnded : ℕ → Task → TaskStatus → Option Text → Option Text → ℕ → World → World → Type 0
HasEnded i t outcome summary error at w w' =
    (w'.tasks
      ≡ insert i
          (record t { status = outcome; finished_at = some at; summary = summary; error = error })
          w.tasks)
    × (w'.employees ≡ freed t.employee_id i outcome w.employees)

-- On consistent stores `finish_task` raises TaskNotFound when the task is not stored and
-- InvalidTaskTransition when its status does not allow the outcome, and then changes nothing.
-- Otherwise it returns, the task has the outcome, the time, the summary and the error, and the
-- employee of the task is freed if and only if this task is its current one.
pub finish_task_lem :
    (runtime : Runtime) (i : ℕ) (outcome : TaskStatus) (summary error : Option Text) (w : World)
    → Consistent runtime w
    → let (r, w') = finish_task runtime i outcome summary error w in
      (error_of r ≡ refusal i outcome w)
      × ((e : Error) → refusal i outcome w ≡ some e → w' ≡ w)
      × ((t : Task)
          → lookup i w.tasks ≡ some t
          → refusal i outcome w ≡ none
          → HasEnded i t outcome summary error (runtime.time w.reads) w w')
unfolding finish_task
finish_task_lem runtime i outcome summary error w c = elim (Option-cases (lookup i w.tasks)) [
  | inl absent ↦ (ground arith, λ e h. ground arith, λ t h q. absurd (ground arith))
  | inr (t, found) ↦
      let named = c.task_id i t found in
      elim (Option-cases (lookup t.employee_id w.employees)) [
        | inl gone ↦ (
          ground (arith, named),
          λ e h. ground (arith, named),
          λ u h q. let same : t ≡ u = cc in ground (arith, named, same),
        )
        | inr (d, held) ↦
            let id = c.employee_id t.employee_id d held in
            (
              ground (arith, named, id),
              λ e h. ground (arith, named, id),
              λ u h q. let same : t ≡ u = cc in ground (arith, named, id, same),
            )
      ]
]

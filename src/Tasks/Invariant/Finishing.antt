-- ===== src/Tasks/Invariant/Finishing.antt =====
-- `finish_task` and `reap_stale_tasks` keep the employees and the tasks in agreement.
use mini_company.Prelude.{
  points_to, if◌then◌else◌, ℕ, ◌+◌, ◌-◌, refl, inl, inr, Option, none, some, List, [], ◌∷◌,
  Bool-cases, Option-cases, keep, arith,
}
use mini_company.Prelude.Text.{Text}
use mini_company.Prelude.Dict.{lookup, values}
use mini_company.Tasks.Domain.{Task, TaskStatus, failed, status_eq}
use mini_company.Tasks.Repository.{is_stale}
use mini_company.Tasks.Responses.{TaskResponse}
use mini_company.Tasks.Service.{finish_task, reap_each, reap_stale_tasks}
use mini_company.Employees.Domain.{EmployeeStatus, idle}
use mini_company.Company.World.{Runtime, World}
use mini_company.Company.Consistent.{Consistent}
use mini_company.Tasks.Invariant.Freeing.{unheld-IsConsistent, freed-IsConsistent}

module _ (runtime : Runtime) where
  pub finish_task-IsConsistent :
      (task_id : ℕ) (outcome : TaskStatus) (summary error : Option Text) (w : World)
      → Consistent runtime w
      → Consistent runtime (finish_task runtime task_id outcome summary error w).1
  unfolding finish_task
  finish_task-IsConsistent i outcome summary error w c = elim (Option-cases (lookup i w.tasks)) [
    | inl absent ↦ ground arith
    | inr (t, found) ↦
        let u = record t {
          status = outcome;
          finished_at = some (runtime.time w.reads);
          summary = summary;
          error = error;
        } in
        let named = c.task_id i t found in
        elim (Option-cases (lookup t.employee_id w.employees)) [
          | inl gone ↦ ground (
            arith,
            unheld-IsConsistent runtime i t u c found named refl (λ e h. absurd (ground arith)),
          )
          | inr (e, held) ↦ elim (Bool-cases (points_to e.current_task_id i)) [
            | inl holds ↦ ground (
              arith,
              c.employee_id t.employee_id e held,
              freed-IsConsistent runtime i t u e
                  (record e {
                    status = if status_eq outcome failed then EmployeeStatus.error else idle;
                    current_task_id = none;
                  })
                  c found named refl held refl refl (ground arith),
            )
            | inr other ↦
                ground (
                  arith,
                  unheld-IsConsistent runtime i t u c found named refl (λ f h. ground arith),
                )
          ]
        ]
  ]

  pub reap_each-IsConsistent :
      (timeout : ℕ) (stale : List Task) (reaped : List TaskResponse) (w : World)
      → Consistent runtime w
      → Consistent runtime (reap_each runtime timeout stale reaped w).1
  unfolding reap_each
  reap_each-IsConsistent timeout [] reaped w c = c
  reap_each-IsConsistent timeout (t ∷ stale) reaped w c =
      grind (arith, reap_each-IsConsistent timeout stale, finish_task-IsConsistent)

  pub reap_stale_tasks-IsConsistent :
      (timeout : ℕ) (w : World)
      → Consistent runtime w
      → Consistent runtime (reap_stale_tasks runtime timeout w).1
  unfolding reap_stale_tasks
  reap_stale_tasks-IsConsistent timeout w c =
      reap_each-IsConsistent timeout
        (keep (is_stale (runtime.time w.reads - timeout)) (values w.tasks)) []
        (record w { reads = w.reads + 1 }) c

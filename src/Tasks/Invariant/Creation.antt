-- ===== src/Tasks/Invariant/Creation.antt =====
-- `assign_task`, `cancel_task` and `start_task` keep the employees and the tasks in agreement.
use mini_company.Prelude.{ℕ, ◌≡◌, refl, inl, inr, Option, none, some, Option-cases, arith}
use mini_company.Prelude.Text.{Text}
use mini_company.Prelude.Dict.{lookup, lookup-insert}
use mini_company.Tasks.Domain.{queued, running, cancelled}
use mini_company.Tasks.Service.{assign_task, new_task, cancel_task, start_task}
use mini_company.Employees.Domain.{working}
use mini_company.Company.World.{Runtime, World}
use mini_company.Company.Consistent.{
  Consistent, add_task-IsConsistent, set_task-IsConsistent, set_employee-IsConsistent,
}

module _ (runtime : Runtime) where
  pub assign_task-IsConsistent :
      (employee_id : ℕ) (kind : Text) (title : Option Text) (w : World)
      → Consistent runtime w
      → Consistent runtime (assign_task runtime employee_id kind title w).1
  unfolding assign_task
  assign_task-IsConsistent employee_id kind title w c = ground (
    arith,
    add_task-IsConsistent runtime c
        (record (new_task employee_id kind title queued none (runtime.time w.reads)) {
          id = some (runtime.object_id w.drawn);
        })
        refl,
  )

  pub cancel_task-IsConsistent :
      (task_id : ℕ) (w : World)
      → Consistent runtime w
      → Consistent runtime (cancel_task runtime task_id w).1
  unfolding cancel_task
  cancel_task-IsConsistent task_id w c = elim (Option-cases (lookup task_id w.tasks)) [
    | inl absent ↦ ground arith
    | inr (t, found) ↦ ground (
      arith,
      c.task_id task_id t found,
      λ (q : t.status ≡ queued).
          set_task-IsConsistent runtime c task_id t
            (record t { status = cancelled; finished_at = some (runtime.time w.reads) }) found
            (c.task_id task_id t found) refl
            (λ i e h p. let r = c.at_work i task_id e h p in cc (r.found, r.runs)),
    )
  ]

  pub start_task-IsConsistent :
      (employee_id : ℕ) (kind : Text) (title : Option Text) (w : World)
      → Consistent runtime w
      → Consistent runtime (start_task runtime employee_id kind title w).1
  unfolding start_task
  start_task-IsConsistent employee_id kind title w c =
      elim (Option-cases (lookup employee_id w.employees)) [
        | inl absent ↦ ground arith
        | inr (e, found) ↦
            let at = runtime.time w.reads in
            let fresh = runtime.object_id w.drawn in
            let t = record (new_task employee_id kind title running (some at) at) {
              id = some fresh;
            } in
            ground (
              arith,
              c.employee_id employee_id e found,
              set_employee-IsConsistent runtime (add_task-IsConsistent runtime c t refl) employee_id
                  e (record e { status = working; current_task_id = some fresh }) found
                  (c.employee_id employee_id e found) refl
                  (λ j p. record {
                    task = t;
                    found = ground (arith, lookup-insert fresh j t w.tasks);
                    owned = refl;
                    runs = refl;
                  }),
            )
      ]

-- ===== src/Tasks/Behaviour/Claiming.antt =====
-- `claim_next_task`.
use mini_company.Prelude.{
  ℕ, ◌≤◌, ◌≡◌, ◌≢◌, refl, inl, inr, Bool, true, false, Option, none, some, [], ◌∷◌, keep, leb,
  Option-cases, arith,
}
use mini_company.Prelude.Dict.{Dict, lookup, insert, values, lookup-insert}
use mini_company.Tasks.Domain.{queued, running, status_eq, Task}
use mini_company.Tasks.Repository.{earliest}
use mini_company.Tasks.Responses.{TaskResponse}
use mini_company.Tasks.Service.{claim_next_task}
use mini_company.Tasks.Invariant.{earliest-lookup}
use mini_company.Employees.Domain.{Employee, working}
use mini_company.Company.World.{Runtime, World, ok}
use mini_company.Company.Consistent.{Consistent, IsRunningFor}

-- There is a task, created no later than an instant.
abbrev pub by : Option Task → ℕ → Bool
by none n = false
by (some t) n = leb t.created_at n

-- The earliest task that passes a test was created no later than any that does.
earliest-by :
    (p : Task → Bool) (d : Dict Task) (i : ℕ) (u : Task)
    → lookup i d ≡ some u
    → p u ≡ true
    → by (earliest (keep p (values d))) u.created_at ≡ true
unfolding earliest lookup values
earliest-by p [] i u found passes = cc
earliest-by p ((j, x) ∷ d) i u found passes = ground (arith, earliest-by p d i u)

-- What a claim that hands out a task has done.
pub record IsHandedOut (runtime : Runtime) (w w' : World) (i : ℕ) : Type 0 where
  pub task : Task
  pub employee : Employee
  pub waited : lookup i w.tasks ≡ some task
  pub was_queued : task.status ≡ queued
  pub oldest :
      (j : ℕ) (u : Task)
      → lookup j w.tasks ≡ some u
      → u.status ≡ queued
      → task.created_at ≤ u.created_at
  pub tasks :
      w'.tasks
      ≡ insert i
          (record task { status = running; started_at = some (runtime.time w.reads) })
          w.tasks
  pub known : lookup task.employee_id w.employees ≡ some employee
  pub employees :
      w'.employees
      ≡ insert task.employee_id
          (record employee { status = working; current_task_id = some i })
          w.employees
  pub rest :
      record w' {
        tasks = w.tasks;
        employees = w.employees;
        published = w.published;
        reads = w.reads;
      }
      ≡ w

-- A claim on consistent stores that returns a task has taken a QUEUED one that was created no
-- later than any other QUEUED one; it is RUNNING now, started when the clock was read, and its
-- employee is WORKING on it. No other task, no other employee and no other store is changed; events
-- are published and the clock is read, of which this says no more.
pub claim_next_task-IsHandedOut :
    (runtime : Runtime) (w : World) (response : TaskResponse)
    → Consistent runtime w
    → (claim_next_task runtime w).0 ≡ ok (some response)
    → IsHandedOut runtime w (claim_next_task runtime w).1 response.id
unfolding claim_next_task
claim_next_task-IsHandedOut runtime w response c returned =
    elim (Option-cases (earliest (keep (λ u. status_eq u.status queued) (values w.tasks)))) [
      | inl empty ↦ absurd (ground arith)
      | inr (t, picked) ↦
          let ((i, found), waits) = earliest-lookup w.tasks t c.keyed_tasks picked in
          let named = c.task_id i t found in
          elim (Option-cases (lookup t.employee_id w.employees)) [
            | inl gone ↦ absurd (ground (arith, named))
            | inr (e, held) ↦
                let id = c.employee_id t.employee_id e held in
                let same : response.id ≡ i = ground (arith, named, id) in
                record {
                  task = t;
                  employee = e;
                  waited = rw same found;
                  was_queued = ground (arith, waits);
                  oldest = λ j u h q.
                      ground
                        (arith, earliest-by (λ u. status_eq u.status queued) w.tasks j u h (rw q));
                  tasks = ground (arith, named, id);
                  known = held;
                  employees = ground (arith, named, id);
                  rest = ground (arith, named, id);
                }
          ]
    ]

-- A claim does not look at what the employee of the oldest QUEUED task is doing: if it works on
-- another task already, then after the claim both tasks are RUNNING and its own, and only the new
-- one is its current task.
pub claim_next_task-double_books :
    (runtime : Runtime) (w : World) (response : TaskResponse) (t : Task) (e : Employee) (j : ℕ)
    → Consistent runtime w
    → (claim_next_task runtime w).0 ≡ ok (some response)
    → lookup response.id w.tasks ≡ some t
    → lookup t.employee_id w.employees ≡ some e
    → e.current_task_id ≡ some j
    → let w' = (claim_next_task runtime w).1 in
      (j ≢ response.id)
      × IsRunningFor w'.tasks j t.employee_id
      × IsRunningFor w'.tasks response.id t.employee_id
      × (lookup t.employee_id w'.employees
          ≡ some (record e { status = working; current_task_id = some response.id }))
claim_next_task-double_books runtime w response t e j c returned waits works busy =
    let h = claim_next_task-IsHandedOut runtime w response c returned in
    let r = c.at_work t.employee_id j e works busy in
    let same : h.task ≡ t = cc (h.waited) in
    let other : j ≢ response.id = λ q. cc (h.waited, h.was_queued, r.found, r.runs) in
    let claimed = record h.task { status = running; started_at = some (runtime.time w.reads) } in
    let employed = record h.employee { status = working; current_task_id = some response.id } in
    (
      other,
      record {
        task = r.task;
        found = ground (arith, h.tasks, lookup-insert response.id j claimed w.tasks, r.found);
        owned = r.owned;
        runs = r.runs;
      },
      record {
        task = claimed;
        found = ground (arith, h.tasks, lookup-insert response.id response.id claimed w.tasks);
        owned = cc (same);
        runs = refl;
      },
      ground (
        arith,
        same,
        h.employees,
        h.known,
        lookup-insert t.employee_id t.employee_id employed w.employees,
      ),
    )

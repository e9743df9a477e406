-- ===== src/Company/Office/Agreement.antt =====
-- Every call keeps the employees and the tasks in agreement.
use mini_company.Prelude.{ℕ, ◌+◌, refl, Bool, Option, none, some, keep, List, [], ◌∷◌, arith}
use mini_company.Prelude.Text.{Text}
use mini_company.Prelude.Dict.{lookup, values}
use mini_company.Tasks.Domain.{ActivityLevel}
use mini_company.Tasks.Service.{add_activity}
use mini_company.Tasks.Invariant.{
  assign_task-IsConsistent, cancel_task-IsConsistent, claim_next_task-IsConsistent,
  start_task-IsConsistent, finish_task-IsConsistent, reap_stale_tasks-IsConsistent,
}
use mini_company.Employees.Invariant.{
  hire-IsConsistent, update-IsConsistent, fire-IsConsistent, hire_or_update-IsConsistent,
}
use mini_company.Schedules.Domain.{Schedule}
use mini_company.Schedules.Clock.{Zone}
use mini_company.Schedules.Service.{create, set_enabled, delete, start, run_each, run_due}
use mini_company.Company.World.{Runtime, World}
use mini_company.Company.Consistent.{Consistent, draw-IsConsistent}
use mini_company.Company.Office.{
  opening, Step, Reach, hires, seeds, updates, fires, assigns, cancels, claims, starts, reports,
  finishes, reaps, creates, toggles, deletes, ticks, opens, next,
}

module _ (zone : Zone) (runtime : Runtime) where
  opening-IsConsistent : Consistent runtime opening
  unfolding lookup
  opening-IsConsistent = record {
    keyed_tasks = tt;
    keyed_employees = tt;
    task_id = λ i t h. cc;
    employee_id = λ i e h. cc;
    free_task = λ k h. refl;
    free_employee = λ k h. refl;
    busy = λ i e h. cc;
    at_work = λ i j e h p. absurd (ground arith);
  }

  add_activity-IsConsistent :
      (i : ℕ) (level : ActivityLevel) (message : Text) (w : World)
      → Consistent runtime w
      → Consistent runtime (add_activity runtime i level message w).1
  unfolding add_activity
  add_activity-IsConsistent i level message w c = ground (arith, draw-IsConsistent runtime c)

  create-IsConsistent :
      (i : ℕ) (kind : Text) (hour minute : ℕ) (title : Option Text) (w : World)
      → Consistent runtime w
      → Consistent runtime (create runtime i kind hour minute title w).1
  unfolding create
  create-IsConsistent i kind hour minute title w c = ground (arith, draw-IsConsistent runtime c)

  set_enabled-IsConsistent :
      (i : ℕ) (enabled : Bool) (w : World)
      → Consistent runtime w
      → Consistent runtime (set_enabled runtime i enabled w).1
  unfolding set_enabled
  set_enabled-IsConsistent i enabled w c = ground (arith, draw-IsConsistent runtime c)

  delete-IsConsistent :
      (i : ℕ) (w : World) → Consistent runtime w → Consistent runtime (delete i w).1
  unfolding delete
  delete-IsConsistent i w c = ground arith

  pub start-IsConsistent :
      (s : Schedule) (moment : ℕ) (w : World)
      → Consistent runtime w
      → Consistent runtime (start zone runtime s moment w).1
  unfolding start
  start-IsConsistent s moment w c = grind (arith, assign_task-IsConsistent)

  run_each-IsConsistent :
      (moment : ℕ) (schedules : List Schedule) (created : ℕ) (w : World)
      → Consistent runtime w
      → Consistent runtime (run_each zone runtime moment schedules created w).1
  unfolding run_each
  run_each-IsConsistent moment [] created w c = c
  run_each-IsConsistent moment (s ∷ schedules) created w c =
      grind (arith, start-IsConsistent, run_each-IsConsistent moment schedules)

  run_due-IsConsistent :
      (moment : Option ℕ) (w : World)
      → Consistent runtime w
      → Consistent runtime (run_due zone runtime moment w).1
  unfolding run_due
  run_due-IsConsistent none w c =
      run_each-IsConsistent (runtime.time w.reads) (keep (λ s. s.enabled) (values w.schedules)) 0
        (record w { reads = w.reads + 1 }) c
  run_due-IsConsistent (some moment) w c =
      run_each-IsConsistent moment (keep (λ s. s.enabled) (values w.schedules)) 0 w c

  pub Step-IsConsistent :
      {v w : World} → Step zone runtime v w → Consistent runtime v → Consistent runtime w
  Step-IsConsistent {v} (hires name role) c = hire-IsConsistent runtime name role v c
  Step-IsConsistent {v} (seeds name role desk) c =
      hire_or_update-IsConsistent runtime name role desk v c
  Step-IsConsistent {v} (updates i name role) c = update-IsConsistent runtime i name role v c
  Step-IsConsistent {v} (fires i) c = fire-IsConsistent runtime i v c
  Step-IsConsistent {v} (assigns i kind title) c = assign_task-IsConsistent runtime i kind title v c
  Step-IsConsistent {v} (cancels i) c = cancel_task-IsConsistent runtime i v c
  Step-IsConsistent {v} claims c = claim_next_task-IsConsistent runtime v c
  Step-IsConsistent {v} (starts i kind title) c = start_task-IsConsistent runtime i kind title v c
  Step-IsConsistent {v} (reports i level message) c = add_activity-IsConsistent i level message v c
  Step-IsConsistent {v} (finishes i outcome summary error) c =
      finish_task-IsConsistent runtime i outcome summary error v c
  Step-IsConsistent {v} (reaps timeout) c = reap_stale_tasks-IsConsistent runtime timeout v c
  Step-IsConsistent {v} (creates i kind hour minute title) c =
      create-IsConsistent i kind hour minute title v c
  Step-IsConsistent {v} (toggles i enabled) c = set_enabled-IsConsistent i enabled v c
  Step-IsConsistent {v} (deletes i) c = delete-IsConsistent i v c
  Step-IsConsistent {v} (ticks moment) c = run_due-IsConsistent moment v c

  -- Whatever calls of the services of employees, tasks and schedules are made on the empty office,
  -- in any order: no two entries share an id, a stored employee or task carries the id it is stored
  -- under, an employee is WORKING exactly when it has a current task, and this task is stored,
  -- RUNNING and its own.
  pub Reach-IsConsistent : {w : World} → Reach zone runtime w → Consistent runtime w
  Reach-IsConsistent opens = opening-IsConsistent
  Reach-IsConsistent (next r step) = Step-IsConsistent step (Reach-IsConsistent r)

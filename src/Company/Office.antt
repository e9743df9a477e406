-- ===== src/Company/Office.antt =====
-- The office as a state machine: a step is one call of the services of employees, tasks or
-- schedules, made by a person, a worker or a background loop, and the calls of all of them come in
-- any order.
pub mod Agreement
pub mod History
use mini_company.Prelude.{
  ℕ, ◌+◌, ◌≡◌, refl, Bool, true, false, Option, none, some, keep, List, [], ◌∷◌, if◌then◌else◌,
  Option-cases, Bool-cases, inl, inr, is_some, arith,
}
use mini_company.Prelude.Text.{Text}
use mini_company.Prelude.Dict.{lookup, values}
use mini_company.Tasks.Domain.{TaskStatus, ActivityLevel, Task, running}
use mini_company.Tasks.Service.{
  assign_task, cancel_task, claim_next_task, start_task, add_activity, finish_task,
  reap_stale_tasks,
}
use mini_company.Tasks.Invariant.{
  assign_task-IsConsistent, cancel_task-IsConsistent, claim_next_task-IsConsistent,
  start_task-IsConsistent, finish_task-IsConsistent, reap_stale_tasks-IsConsistent,
}
use mini_company.Employees.Domain.{Role, DeskPosition, Employee, working, employee_status_eq}
use mini_company.Employees.Service.{hire, update, fire, hire_or_update}
use mini_company.Employees.Invariant.{
  hire-IsConsistent, update-IsConsistent, fire-IsConsistent, hire_or_update-IsConsistent,
}
use mini_company.Schedules.Domain.{Schedule}
use mini_company.Schedules.Clock.{Zone}
use mini_company.Schedules.Service.{create, set_enabled, delete, start, run_each, run_due, is_due}
use mini_company.Tasks.History.{
  Follows, follow_refl, follow_trans, assign_task-Follows, cancel_task-Follows,
  claim_next_task-Follows, start_task-Follows, finish_task-Follows, reap_stale_tasks-Follows,
}
use mini_company.Company.World.{Runtime, World, Result-cases}
use mini_company.Company.Consistent.{IsConsistent, Consistent, IsRunningFor, draw-IsConsistent}

abbrev pub opening : World
opening = record {
  employees = [];
  tasks = [];
  activities = [];
  schedules = [];
  entries = [];
  documents = [];
  rows = [];
  conversations = [];
  published = [];
  reads = 0;
  drawn = 0;
}

module _ (zone : Zone) (runtime : Runtime) where
  pub data Step (w : World) : World → Type 0 where
    hires : (name : Text) (role : Role) → Step w (hire runtime name role w).1
    seeds :
        (name : Text) (role : Role) (desk : DeskPosition)
        → Step w (hire_or_update runtime name role desk w).1
    updates :
        (i : ℕ) (name : Option Text) (role : Option Role) → Step w (update runtime i name role w).1
    fires : (i : ℕ) → Step w (fire i w).1
    assigns :
        (i : ℕ) (kind : Text) (title : Option Text) → Step w (assign_task runtime i kind title w).1
    cancels : (i : ℕ) → Step w (cancel_task runtime i w).1
    claims : Step w (claim_next_task runtime w).1
    starts :
        (i : ℕ) (kind : Text) (title : Option Text) → Step w (start_task runtime i kind title w).1
    reports :
        (i : ℕ) (level : ActivityLevel) (message : Text)
        → Step w (add_activity runtime i level message w).1
    finishes :
        (i : ℕ) (outcome : TaskStatus) (summary error : Option Text)
        → Step w (finish_task runtime i outcome summary error w).1
    reaps : (timeout : ℕ) → Step w (reap_stale_tasks runtime timeout w).1
    creates :
        (i : ℕ) (kind : Text) (hour minute : ℕ) (title : Option Text)
        → Step w (create runtime i kind hour minute title w).1
    toggles : (i : ℕ) (enabled : Bool) → Step w (set_enabled runtime i enabled w).1
    deletes : (i : ℕ) → Step w (delete i w).1
    ticks : (moment : Option ℕ) → Step w (run_due zone runtime moment w).1

  pub data Reach : World → Type 0 where
    opens : Reach opening
    next : {v w : World} → Reach v → Step v w → Reach w

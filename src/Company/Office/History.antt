-- ===== src/Company/Office/History.antt =====
-- Every call keeps the stored tasks and moves their statuses by allowed transitions only.
use mini_company.Prelude.{
  ℕ, ◌+◌, ◌≡◌, Bool, Option, none, some, keep, List, [], ◌∷◌, if◌then◌else◌, inl, inr, subst, sym,
  arith,
}
use mini_company.Prelude.Text.{Text}
use mini_company.Prelude.Dict.{Dict, values}
use mini_company.Tasks.Domain.{ActivityLevel, Task}
use mini_company.Tasks.Service.{add_activity}
use mini_company.Employees.Domain.{Role, DeskPosition}
use mini_company.Employees.Service.{hire, update, fire, hire_or_update, save_changes, reject_taken}
use mini_company.Schedules.Domain.{Schedule}
use mini_company.Schedules.Clock.{Zone}
use mini_company.Schedules.Service.{create, set_enabled, delete, start, run_each, run_due}
use mini_company.Tasks.History.{
  Follows, follow_refl, follow_trans, assign_task-Follows, cancel_task-Follows,
  claim_next_task-Follows, start_task-Follows, finish_task-Follows, reap_stale_tasks-Follows,
}
use mini_company.Company.World.{Runtime, World, Result-cases}
use mini_company.Company.Consistent.{Consistent}
use mini_company.Company.Office.{
  Step, Reach, hires, seeds, updates, fires, assigns, cancels, claims, starts, reports, finishes,
  reaps, creates, toggles, deletes, ticks,
}
use mini_company.Company.Office.Agreement.{start-IsConsistent, Reach-IsConsistent}

module _ (zone : Zone) (runtime : Runtime) where
  start-Follows :
      (s : Schedule) (moment : ℕ) (w : World)
      → Consistent runtime w
      → Follows w.tasks (start zone runtime s moment w).1.tasks
  unfolding start
  start-Follows s moment w c = grind (arith, follow_refl w.tasks, assign_task-Follows)

  run_each-Follows :
      (moment : ℕ) (schedules : List Schedule) (created : ℕ) (w : World)
      → Consistent runtime w
      → Follows w.tasks (run_each zone runtime moment schedules created w).1.tasks
  unfolding run_each
  run_each-Follows moment [] created w c = follow_refl w.tasks
  run_each-Follows moment (s ∷ schedules) created w c =
      let after = start zone runtime s moment w in
      let first = start-Follows s moment w c in
      let c' = start-IsConsistent zone runtime s moment w c in
      elim (Result-cases after.0) [
        | inl (b, e) ↦ ground (
          arith,
          run_each-Follows moment schedules created w c,
          follow_trans first
              (run_each-Follows moment schedules (if b then created + 1 else created) after.1 c'),
        )
        | inr (x, e) ↦ ground (arith, first, run_each-Follows moment schedules created w c)
      ]

  run_due-Follows :
      (moment : Option ℕ) (w : World)
      → Consistent runtime w
      → Follows w.tasks (run_due zone runtime moment w).1.tasks
  unfolding run_due
  run_due-Follows none w c =
      run_each-Follows (runtime.time w.reads) (keep (λ s. s.enabled) (values w.schedules)) 0
        (record w { reads = w.reads + 1 }) c
  run_due-Follows (some moment) w c =
      run_each-Follows moment (keep (λ s. s.enabled) (values w.schedules)) 0 w c

  module _ (w : World) where
    hire-tasks : (name : Text) (role : Role) → (hire runtime name role w).1.tasks ≡ w.tasks
    unfolding hire
    hire-tasks name role = ground arith

    hire_or_update-tasks :
        (name : Text) (role : Role) (desk : DeskPosition)
        → (hire_or_update runtime name role desk w).1.tasks ≡ w.tasks
    unfolding hire_or_update
    hire_or_update-tasks name role desk = ground arith

    update-tasks :
        (i : ℕ) (name : Option Text) (role : Option Role)
        → (update runtime i name role w).1.tasks ≡ w.tasks
    unfolding update reject_taken save_changes
    update-tasks i name role = ground arith

    fire-tasks : (i : ℕ) → (fire i w).1.tasks ≡ w.tasks
    unfolding fire
    fire-tasks i = ground arith

    add_activity-tasks :
        (i : ℕ) (level : ActivityLevel) (message : Text)
        → (add_activity runtime i level message w).1.tasks ≡ w.tasks
    unfolding add_activity
    add_activity-tasks i level message = ground arith

    create-tasks :
        (i : ℕ) (kind : Text) (hour minute : ℕ) (title : Option Text)
        → (create runtime i kind hour minute title w).1.tasks ≡ w.tasks
    unfolding create
    create-tasks i kind hour minute title = ground arith

    set_enabled-tasks :
        (i : ℕ) (enabled : Bool) → (set_enabled runtime i enabled w).1.tasks ≡ w.tasks
    unfolding set_enabled
    set_enabled-tasks i enabled = ground arith

    delete-tasks : (i : ℕ) → (delete i w).1.tasks ≡ w.tasks
    unfolding delete
    delete-tasks i = ground arith

  -- When the tasks are the same, they follow.
  same_tasks : (v : World) {tasks : Dict Task} → tasks ≡ v.tasks → Follows v.tasks tasks
  same_tasks v e = subst (Follows v.tasks) (sym e) (follow_refl v.tasks)

  -- Every call of a service on an office that calls have brought about keeps every stored task: it
  -- stays under its id with the same employee, and its status only moves along allowed transitions.
  pub Step-Follows :
      {v w : World} → Reach zone runtime v → Step zone runtime v w → Follows v.tasks w.tasks
  Step-Follows {v} r (hires name role) = same_tasks v (hire-tasks v name role)
  Step-Follows {v} r (seeds name role desk) = same_tasks v (hire_or_update-tasks v name role desk)
  Step-Follows {v} r (updates i name role) = same_tasks v (update-tasks v i name role)
  Step-Follows {v} r (fires i) = same_tasks v (fire-tasks v i)
  Step-Follows {v} r (assigns i kind title) =
      assign_task-Follows runtime i kind title v (Reach-IsConsistent zone runtime r)
  Step-Follows {v} r (cancels i) =
      cancel_task-Follows runtime i v (Reach-IsConsistent zone runtime r)
  Step-Follows {v} r claims = claim_next_task-Follows runtime v (Reach-IsConsistent zone runtime r)
  Step-Follows {v} r (starts i kind title) =
      start_task-Follows runtime i kind title v (Reach-IsConsistent zone runtime r)
  Step-Follows {v} r (reports i level message) = same_tasks v (add_activity-tasks v i level message)
  Step-Follows {v} r (finishes i outcome summary error) =
      finish_task-Follows runtime i outcome summary error v (Reach-IsConsistent zone runtime r)
  Step-Follows {v} r (reaps timeout) =
      reap_stale_tasks-Follows runtime timeout v (Reach-IsConsistent zone runtime r)
  Step-Follows {v} r (creates i kind hour minute title) =
      same_tasks v (create-tasks v i kind hour minute title)
  Step-Follows {v} r (toggles i enabled) = same_tasks v (set_enabled-tasks v i enabled)
  Step-Follows {v} r (deletes i) = same_tasks v (delete-tasks v i)
  Step-Follows {v} r (ticks moment) = run_due-Follows moment v (Reach-IsConsistent zone runtime r)

-- ===== src/Tests/Shifts.antt =====
-- Tasks that are reaped and activities that are read, and what the theorems say of them.
use mini_company.Prelude.{ℕ, ◌-◌, ◌*◌, ◌≤◌, ◌≡◌, refl, true, none, some, map, length, arith}
use mini_company.Prelude.Text.{codes, strip, clean_title}
use mini_company.Prelude.Dict.{IsKeyed, lookup, insert, remove, values}
use mini_company.Tasks.Domain.{Task, Activity, info, running}
use mini_company.Tasks.StateMachine.{can_transition}
use mini_company.Tasks.Repository.{is_stale, recent_first}
use mini_company.Tasks.Service.{
  add_activity, assign_task, claim_next_task, new_task, reap_stale_tasks,
}
use mini_company.Tasks.Behaviour.Reaping.{reap_stale_tasks_lem}
use mini_company.Tasks.Behaviour.Reaping.One.{reaped_at}
use mini_company.Tasks.Behaviour.Paging.{read_pages}
use mini_company.Tasks.Behaviour.Paging.Slices.{activities_of, shown}
use mini_company.Tasks.Behaviour.Paging.Complete.{read_pages_lem}
use mini_company.Employees.Domain.{Employee, collector, working, role_llm_profile}
use mini_company.Employees.Desk.{desk_for_slot, next_free_desk}
use mini_company.Employees.Service.{hire}
use mini_company.Company.World.{World, ok}
use mini_company.Company.Office.Agreement.{Reach-IsConsistent}
use mini_company.Samples.{runtime, seoul, claimed, claimed-reached}

shifts : Unit {0}
unfolding assign_task claim_next_task hire strip lookup insert remove values add_activity
    recent_first desk_for_slot next_free_desk can_transition clean_title role_llm_profile is_stale
shifts = tt

-- The RUNNING task of the sample office.
abbrev handed : Task
handed = record (new_task 0 (codes "research") (some (codes " Survey ")) running none 1001) {
  id = some 1;
  started_at = some 1002;
}

is_handed : lookup 1 claimed.tasks ≡ some handed
unfolding shifts
is_handed = refl

is_old : is_stale (runtime.time claimed.reads - 0) handed ≡ true
unfolding shifts
is_old = refl

reap_stale_tasks_lem_example :
    (at : ℕ) × (lookup 1 (reap_stale_tasks runtime 0 claimed).1.tasks
      ≡ some (reaped_at runtime 0 at handed))
reap_stale_tasks_lem_example =
    (reap_stale_tasks_lem runtime 0 claimed (Reach-IsConsistent seoul runtime claimed-reached)).1 1
      handed is_handed is_old

-- Three activities of the employee at work.
abbrev noted : World
noted =
    let w = (add_activity runtime 1 info (codes "read") claimed).1 in
    let w' = (add_activity runtime 1 info (codes "wrote") w).1 in
    (add_activity runtime 1 info (codes "sent") w').1

abbrev worker : Employee
worker = record {
  id = some 0;
  name = codes "Mina";
  role = collector;
  status = working;
  desk = desk_for_slot 0;
  current_task_id = some 1;
  llm_profile = codes "structured";
  hired_at = 1000;
}

is_known : lookup 0 noted.employees ≡ some worker
unfolding shifts
is_known = refl

is_keyed : IsKeyed noted.activities
unfolding shifts
is_keyed = (refl, (refl, (refl, tt)))

is_named : (i : ℕ) (a : Activity) → lookup i noted.activities ≡ some a → a.id ≡ some i
unfolding shifts
is_named i a found = ground arith

is_enough : length (activities_of 0 noted) ≤ 2 * 2
unfolding shifts
is_enough = omega arith

read_pages_lem_example :
    read_pages runtime 2 0 2 none noted ≡ (ok (map shown (activities_of 0 noted)), noted)
read_pages_lem_example =
    read_pages_lem runtime 0 noted worker 2 2 is_known is_keyed is_named (omega arith) is_enough

three_activities : length (activities_of 0 noted) ≡ 3
unfolding shifts
three_activities = refl

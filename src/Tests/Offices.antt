-- ===== src/Tests/Offices.antt =====
-- Calls of the services, and what the theorems say of them.
use mini_company.Prelude.{ℕ, ◌+◌, ◌*◌, ◌≡◌, ◌≢◌, ◌↔◌, refl, true, false, none, some, [], ◌∷◌}
use mini_company.Prelude.Text.{codes, strip, clean_title}
use mini_company.Prelude.Int.{negate}
use mini_company.Prelude.Dict.{lookup, insert, remove, values}
use mini_company.Tasks.Domain.{Task, queued, running, succeeded}
use mini_company.Tasks.StateMachine.{can_transition, visits, visits-IsLife, here}
use mini_company.Tasks.StateMachine
use mini_company.Tasks.Service.{assign_task, claim_next_task, start_task, finish_task, new_task}
use mini_company.Tasks.Responses.{TaskResponse}
use mini_company.Tasks.History.{Follows}
use mini_company.Tasks.Behaviour.Assigning.{assign_task_lem}
use mini_company.Tasks.Behaviour.Claiming.{
  claim_next_task-IsHandedOut, claim_next_task-double_books, IsHandedOut,
}
use mini_company.Tasks.Behaviour.Finishing.{finish_task_lem, refusal}
use mini_company.Employees.Domain.{Employee, collector, working, role_llm_profile}
use mini_company.Employees.Desk.{desk_for_slot, next_free_desk}
use mini_company.Employees.Desk.Free.{next_free_desk-IsFirstFree, IsFirstFree}
use mini_company.Employees.Service.{hire}
use mini_company.Schedules.Service.{is_due}
use mini_company.Schedules.Clock.{minute_length, hour_length}
use mini_company.Schedules.Due.{is_due_iff, IsTime, NotRunOn}
use mini_company.Tests.Clocks.{morning}
use mini_company.Company.World.{ok, err, error_of, invalid_task_transition}
use mini_company.Company.Consistent.{Consistent, IsRunningFor}
use mini_company.Company.Office.{finishes}
use mini_company.Company.Office.Agreement.{Reach-IsConsistent}
use mini_company.Company.Office.History.{Step-Follows}
use mini_company.Samples.{
  runtime, seoul, assigned, busy, claimed, assigned-reached, busy-reached, claimed-reached,
}

office : Unit {0}
unfolding assign_task claim_next_task start_task finish_task hire strip lookup insert remove values
    desk_for_slot next_free_desk can_transition negate clean_title role_llm_profile is_due
office = tt

Reach-IsConsistent_example : Consistent runtime busy
Reach-IsConsistent_example = Reach-IsConsistent seoul runtime busy-reached

Step-Follows_example :
    Follows claimed.tasks (finish_task runtime 1 succeeded none none claimed).1.tasks
Step-Follows_example = Step-Follows seoul runtime claimed-reached (finishes 1 succeeded none none)

-- Nine and ten past nine in Seoul, and five past midnight for a schedule of ten to midnight.
is_due_iff_example :
    (is_due seoul morning (10 * minute_length) ≡ true)
    ↔ (IsTime morning (10 * minute_length + 9 * hour_length) × NotRunOn seoul 0 none)
is_due_iff_example = is_due_iff seoul morning (10 * minute_length)

is_due_late :
    is_due seoul (record morning { hour = 23; minute = 50 }) (15 * hour_length + 5 * minute_length)
    ≡ false
unfolding is_due
is_due_late = refl

finish_task_lem_example :
    error_of (finish_task runtime 1 succeeded none none claimed).0 ≡ refusal 1 succeeded claimed
finish_task_lem_example =
    (finish_task_lem runtime 1 succeeded none none claimed
      (Reach-IsConsistent seoul runtime claimed-reached)).0

finish_queued : (finish_task runtime 1 succeeded none none assigned).0 ≡ err invalid_task_transition
unfolding office
finish_queued = refl

assign_task_lem_example :
    let (r, w') = assign_task runtime 0 (codes "again") none assigned in w' ≡ assigned
unfolding office
assign_task_lem_example = (assign_task_lem runtime 0 (codes "again") none assigned).1

-- What a claim returns here.
abbrev handed : TaskResponse
handed = record {
  id = 1;
  employee_id = 0;
  kind = codes "research";
  title = some (codes "Survey");
  status = running;
  summary = none;
  started_at = some 1002;
  finished_at = none;
  error = none;
  created_at = 1001;
}

claim_hands_out : (claim_next_task runtime assigned).0 ≡ ok (some handed)
unfolding office
claim_hands_out = refl

claim_next_task-IsHandedOut_example :
    IsHandedOut runtime assigned (claim_next_task runtime assigned).1 1
claim_next_task-IsHandedOut_example =
    claim_next_task-IsHandedOut runtime assigned handed
      (Reach-IsConsistent seoul runtime assigned-reached) claim_hands_out

-- The same while the employee works on a task that it started itself.
abbrev handed_later : TaskResponse
handed_later = record handed { started_at = some 1003 }

abbrev waiting : Task
waiting = record (new_task 0 (codes "research") (some (codes " Survey ")) queued none 1001) {
  id = some 1;
}

abbrev worker : Employee
worker = record {
  id = some 0;
  name = codes "Mina";
  role = collector;
  status = working;
  desk = desk_for_slot 0;
  current_task_id = some 2;
  llm_profile = codes "structured";
  hired_at = 1000;
}

claim_hands_out_again : (claim_next_task runtime busy).0 ≡ ok (some handed_later)
unfolding office
claim_hands_out_again = refl

is_waiting : lookup 1 busy.tasks ≡ some waiting
unfolding office
is_waiting = refl

is_at_work : lookup 0 busy.employees ≡ some worker
unfolding office
is_at_work = refl

claim_next_task-double_books_example :
    ◌≢◌ {A = ℕ} 2 1
    × IsRunningFor (claim_next_task runtime busy).1.tasks 2 0
    × IsRunningFor (claim_next_task runtime busy).1.tasks 1 0
    × (lookup 0 (claim_next_task runtime busy).1.employees
        ≡ some (record worker { status = working; current_task_id = some 1 }))
claim_next_task-double_books_example =
    claim_next_task-double_books runtime busy handed_later waiting worker 2
      (Reach-IsConsistent seoul runtime busy-reached) claim_hands_out_again is_waiting is_at_work
      refl

next_free_desk-IsFirstFree_example :
    IsFirstFree
      (desk_for_slot 0 ∷ desk_for_slot 2 ∷ [])
      (next_free_desk (desk_for_slot 0 ∷ desk_for_slot 2 ∷ []))
next_free_desk-IsFirstFree_example =
    next_free_desk-IsFirstFree (desk_for_slot 0 ∷ desk_for_slot 2 ∷ [])

next_free_desk_gap : next_free_desk (desk_for_slot 0 ∷ desk_for_slot 2 ∷ []) ≡ desk_for_slot 1
unfolding office
next_free_desk_gap = refl

-- A task that was claimed and has succeeded.
abbrev claimed_way : StateMachine.Reach queued running
unfolding office
claimed_way = StateMachine.Reach.next {t = queued} here refl

abbrev finished_way : StateMachine.Reach queued succeeded
unfolding office
finished_way = StateMachine.Reach.next {t = running} claimed_way refl

visits-IsLife_example : visits finished_way ≡ succeeded ∷ running ∷ queued ∷ []
visits-IsLife_example = visits-IsLife finished_way

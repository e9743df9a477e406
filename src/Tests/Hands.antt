-- ===== src/Tests/Hands.antt =====
-- A worker, and what the theorems say of it.
use mini_company.Prelude.{ℕ, zero, suc, ◌≡◌, refl, Option, some, none, true, false, [], ◌∷◌, arith}
use mini_company.Prelude.Text.{Text, codes, strip, clean_title}
use mini_company.Prelude.Dict.{lookup, insert, values}
use mini_company.Tasks.Domain.{Task, running, succeeded}
use mini_company.Tasks.Routes.{accepts_finish}
use mini_company.Tasks.Service.{assign_task, claim_next_task, new_task}
use mini_company.Employees.Domain.{role_llm_profile}
use mini_company.Employees.Desk.{desk_for_slot, next_free_desk}
use mini_company.Employees.Service.{hire}
use mini_company.Workers.Client.{
  Call, Client, Delivery, delivered, raised, unreachable, workflow_failed, request,
}
use mini_company.Workers.Retry.{with_connection_retry}
use mini_company.Workers.Retry.Once.{IsOnce, with_connection_retry-IsOnce}
use mini_company.Workers.Harness.{Worker, finishing}
use mini_company.Workers.Harness.Ending.{IsConcluded, finishing-IsConcluded}
use mini_company.Company.Office.Agreement.{Reach-IsConsistent}
use mini_company.Samples.{runtime, seoul, assigned, claimed, claimed-reached}

-- The first request does not connect.
abbrev flaky : ℕ → Delivery
flaky zero = unreachable
flaky (suc n) = delivered

abbrev before : Client
before = record { backend = assigned; sent = 0; slept = [] }

with_connection_retry-IsOnce_example :
    let (r, c') = with_connection_retry (request flaky (claim_next_task runtime)) 3 before in
    IsOnce flaky (claim_next_task runtime) 3 before r c'
with_connection_retry-IsOnce_example =
    with_connection_retry-IsOnce flaky (claim_next_task runtime) 3 before

abbrev worker : Worker
worker = record {
  network = λ n. delivered;
  max_attempts = 3;
  workflows = [];
  describe = λ e. codes "UnknownWorkflow";
}

abbrev at_work : Client
at_work = record { backend = claimed; sent = 1; slept = [] }

-- A body that raises.
abbrev failing : Call (Option Text)
failing c = (raised workflow_failed, c)

hands : Unit {0}
unfolding assign_task claim_next_task hire strip lookup insert values desk_for_slot next_free_desk
    clean_title role_llm_profile
hands = tt

-- The RUNNING task of the sample office.
abbrev handed : Task
handed = record (new_task 0 (codes "research") (some (codes " Survey ")) running none 1001) {
  id = some 1;
  started_at = some 1002;
}

is_handed : lookup 1 claimed.tasks ≡ some handed
unfolding hands
is_handed = refl

finishing-IsConcluded_example :
    IsConcluded runtime worker 1 handed
      (raised workflow_failed)
      at_work
      (finishing runtime worker 1 failing at_work)
finishing-IsConcluded_example =
    finishing-IsConcluded runtime worker 1 handed failing at_work
      (Reach-IsConsistent seoul runtime claimed-reached) is_handed refl (omega arith) refl

-- A report of 1001 characters is refused, one of 1000 is not.
abbrev letters : ℕ → Text
letters zero = []
letters (suc n) = 97 ∷ letters n

report_refused : accepts_finish succeeded (some (letters 1001)) none ≡ false
unfolding accepts_finish
report_refused = refl

report_accepted : accepts_finish succeeded (some (letters 1000)) none ≡ true
unfolding accepts_finish
report_accepted = refl

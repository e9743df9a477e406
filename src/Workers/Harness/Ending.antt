-- ===== src/Workers/Harness/Ending.antt =====
-- A task that a worker runs ends.
use mini_company.Prelude.{
  ℕ, zero, suc, ◌+◌, ◌<◌, ◌≡◌, ◌⊎◌, refl, sym, subst, inl, inr, true, false, Option, none, some,
  Bool-cases, arith,
}
use mini_company.Prelude.Text.{Text}
use mini_company.Prelude.Dict.{lookup}
use mini_company.Tasks.Domain.{Task, TaskStatus, running, succeeded, failed}
use mini_company.Tasks.StateMachine.{can_transition}
use mini_company.Tasks.Service.{finish_task}
use mini_company.Tasks.Routes.{accepts_finish, finish_route}
use mini_company.Tasks.Behaviour.Finishing.{HasEnded, finish_task_lem, refusal}
use mini_company.Workers.Client.{
  Call, Client, Reply, delivered, raised, request, returned, status_error,
}
use mini_company.Workers.Retry.{retry, with_connection_retry}
use mini_company.Workers.Harness.{Worker, conclude, finish_safely, finishing, send}
use mini_company.Company.Consistent.{Consistent}
use mini_company.Company.World.{
  Action, Error, Runtime, World, err, ok, request_invalid, Result-cases,
}

module _ (runtime : Runtime) (worker : Worker) where
  -- A request that is delivered returns what the backend returns, and what it raises as the
  -- exception of an error status.
  retry-delivered :
      {A : Type 0} (action : Action A) (c : Client) (a : A) (limit attempts : ℕ)
      → 0 < attempts
      → worker.network c.sent ≡ delivered
      → (action c.backend).0 ≡ ok a
      → retry (request worker.network action) limit attempts 0 none c
        ≡ (returned a, record c { backend = (action c.backend).1; sent = c.sent + 1 })
  unfolding retry request
  retry-delivered action c a limit zero positive through made = absurd (omega arith)
  retry-delivered action c a limit (suc attempts) positive through made =
      ground (arith, through, made)

  retry-refused :
      {A : Type 0} (action : Action A) (c : Client) (e : Error) (limit attempts : ℕ)
      → 0 < attempts
      → worker.network c.sent ≡ delivered
      → (action c.backend).0 ≡ err e
      → retry (request worker.network action) limit attempts 0 none c
        ≡ (raised status_error, record c { backend = (action c.backend).1; sent = c.sent + 1 })
  unfolding retry request
  retry-refused action c e limit zero positive through refused = absurd (omega arith)
  retry-refused action c e limit (suc attempts) positive through refused =
      ground (arith, through, refused)

  -- What becomes of a RUNNING task when the harness reports an outcome: a report within the limits
  -- of the route ends it, and another one changes nothing at all.
  abbrev pub IsReported :
      ℕ → Task → TaskStatus → Option Text → Option Text → World → World → ℕ → Type 0
  IsReported i t outcome summary error w w' now =
      ((accepts_finish outcome summary error ≡ true) × HasEnded i t outcome summary error now w w')
      ⊎ ((accepts_finish outcome summary error ≡ false) × (w' ≡ w))

  finish-Reports :
      (i : ℕ) (t : Task) (outcome : TaskStatus) (summary error : Option Text) (c : Client)
      → Consistent runtime c.backend
      → lookup i c.backend.tasks ≡ some t
      → can_transition t.status outcome ≡ true
      → 0 < worker.max_attempts
      → worker.network c.sent ≡ delivered
      → let (r, c') = finish_safely runtime worker i outcome summary error c in
        (r ≡ returned tt)
        × IsReported i t outcome summary error c.backend c'.backend (runtime.time c.backend.reads)
  unfolding finish_safely send with_connection_retry finish_route
  finish-Reports i t outcome summary error c consistent found allowed_ positive through =
      let s = finish_task_lem runtime i outcome summary error c.backend consistent in
      let free : refusal i outcome c.backend ≡ none = rw (refusal, found, allowed_) refl in
      let route = finish_route runtime i outcome summary error in
      let n = worker.max_attempts in
      elim (Bool-cases (accepts_finish outcome summary error)) [
        | inl fits ↦ elim (Result-cases (finish_task runtime i outcome summary error c.backend).0) [
          | inr (e, refused) ↦ absurd (ground (arith, s.0))
          | inl (response, made) ↦
              let accepted : route c.backend
                  ≡ finish_task runtime i outcome summary error c.backend =
                rw fits refl in
              let sent = retry-delivered route c response n n positive through (rw accepted made) in
              rw sent (refl, inl (fits, rw accepted (s.2 t found free)))
        ]
        | inr long ↦
            let refused : route c.backend ≡ (err request_invalid, c.backend) = rw long refl in
            let sent =
              retry-refused route c request_invalid n n positive through (rw refused refl) in
            rw sent (refl, inr (long, rw refused refl))
      ]

  -- What the harness makes of what the body of a task came to.
  abbrev pub IsConcluded : ℕ → Task → Reply (Option Text) → Client → Reply Unit × Client → Type 0
  IsConcluded i t (returned summary) c (r, c') =
      (r ≡ returned tt)
      × IsReported i t succeeded summary none c.backend c'.backend (runtime.time c.backend.reads)
  IsConcluded i t (raised e) c (r, c') =
      (r ≡ raised e)
      × IsReported i t failed none (some (worker.describe e)) c.backend c'.backend
          (runtime.time c.backend.reads)

  concluded :
      (i : ℕ) (t : Task) (r : Reply (Option Text)) (c : Client)
      → Consistent runtime c.backend
      → lookup i c.backend.tasks ≡ some t
      → t.status ≡ running
      → 0 < worker.max_attempts
      → worker.network c.sent ≡ delivered
      → IsConcluded i t r c (conclude runtime worker i r c)
  unfolding conclude can_transition
  concluded i t (returned summary) c consistent found runs positive through =
      finish-Reports i t succeeded summary none c consistent found (rw runs refl) positive through
  concluded i t (raised e) c consistent found runs positive through =
      let (done, ended) =
        finish-Reports i t failed none (some (worker.describe e)) c consistent found (rw runs refl)
          positive through in
      let finished = finish_safely runtime worker i failed none (some (worker.describe e)) c in
      let same : conclude runtime worker i (raised e) c ≡ (raised e, finished.1) =
        ground (arith, done) in
      subst (IsConcluded i t (raised e) c) (sym same) (refl, ended)

  -- Whatever the body of a task does, returning or raising, when it leaves the stores consistent
  -- and the task RUNNING and the request that follows is delivered: if the summary of a body that
  -- returned, or the description of the exception of one that raised, has at most 1000 characters,
  -- the harness ends the task, SUCCEEDED with that summary or FAILED with that description, and the
  -- employee whose current task it was is freed; if it is longer, the report is refused and nothing
  -- on the backend changes. In both cases it raises again what the body raised, and nothing else.
  pub finishing-IsConcluded :
      (i : ℕ) (t : Task) (body : Call (Option Text)) (c : Client)
      → Consistent runtime (body c).1.backend
      → lookup i (body c).1.backend.tasks ≡ some t
      → t.status ≡ running
      → 0 < worker.max_attempts
      → worker.network (body c).1.sent ≡ delivered
      → IsConcluded i t (body c).0 (body c).1 (finishing runtime worker i body c)
  unfolding finishing
  finishing-IsConcluded i t body c consistent found runs positive through =
      concluded i t (body c).0 (body c).1 consistent found runs positive through

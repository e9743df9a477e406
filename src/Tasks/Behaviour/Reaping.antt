-- ===== src/Tasks/Behaviour/Reaping.antt =====
-- `reap_stale_tasks`.
pub mod One
use mini_company.Prelude.{
  ℕ, ◌+◌, ◌-◌, ◌≡◌, refl, inl, inr, Bool, true, false, ◌&&◌, none, some, List, [], ◌∷◌, any, keep,
  points_to, ◌==◌, if◌then◌else◌, Bool-cases, Option-cases, arith,
}
use mini_company.Prelude.Dict.{Dict, lookup, values, lookup-insert, IsKeyed}
use mini_company.Tasks.Domain.{Task, cancelled}
use mini_company.Tasks.StateMachine.{can_transition}
use mini_company.Tasks.Repository.{is_stale}
use mini_company.Tasks.Responses.{TaskResponse}
use mini_company.Tasks.Service.{finish_task, reap_each, reap_stale_tasks, reaped_error, collect}
use mini_company.Tasks.Behaviour.Finishing.{finish_task_lem, refusal}
use mini_company.Tasks.Invariant.{finish_task-IsConsistent, reap_stale_tasks-IsConsistent}
use mini_company.Employees.Domain.{Employee}
use mini_company.Company.World.{
  Runtime, World, Result, task_not_found, invalid_task_transition, is_ok, Result-cases,
}
use mini_company.Company.Consistent.{Consistent}
use mini_company.Tasks.Behaviour.Reaping.One.{
  lists, lists-keep, reaped_at, reap_one, reap_one-lookup, reap_one-none, reap_one-collected,
}

module _ (runtime : Runtime) (timeout : ℕ) where
  module _ (j : ℕ) where
    -- A task that is not listed, or that has ended, stays as it is.
    reap_each-kept :
        (stale : List Task) (reaped : List TaskResponse) (t : Task) (w : World)
        → Consistent runtime w
        → lookup j w.tasks ≡ some t
        → (lists j stale && can_transition t.status cancelled) ≡ false
        → lookup j (reap_each runtime timeout stale reaped w).1.tasks ≡ some t
    unfolding reap_each
    reap_each-kept [] reaped t w c found spared = found
    reap_each-kept (x ∷ stale) reaped t w c found spared = elim (Option-cases x.id) [
      | inl unsaved ↦ ground (arith, reap_each-kept stale reaped t w c found)
      | inr (i, named) ↦
          let after = reap_one runtime timeout i w in
          let first = reap_one-lookup runtime timeout i j t w c found in
          elim (Result-cases (collect runtime after.0 reaped)) [
            | inl (reaped', e) ↦ ground (
              arith,
              first,
              reap_each-kept stale reaped' t after.1
                  (finish_task-IsConsistent runtime i cancelled none
                    (some (reaped_error runtime timeout)) w c)
                  (ground (arith, first)),
            )
            | inr (x, e) ↦ absurd (ground (arith, reap_one-collected runtime timeout i w reaped c))
          ]
    ]

    -- A listed task that runs or waits is cancelled, with the error that says why.
    reap_each-ended :
        (stale : List Task) (reaped : List TaskResponse) (t : Task) (w : World)
        → Consistent runtime w
        → lookup j w.tasks ≡ some t
        → lists j stale ≡ true
        → can_transition t.status cancelled ≡ true
        → (at : ℕ) × (lookup j (reap_each runtime timeout stale reaped w).1.tasks
            ≡ some (reaped_at runtime timeout at t))
    unfolding reap_each can_transition
    reap_each-ended [] reaped t w c found listed open_ = cc
    reap_each-ended (x ∷ stale) reaped t w c found listed open_ = elim (Option-cases x.id) [
      | inl unsaved ↦
          let (at, ended) = reap_each-ended stale reaped t w c found (ground arith) open_ in
          (at, ground arith)
      | inr (i, named) ↦
          let after = reap_one runtime timeout i w in
          let first = reap_one-lookup runtime timeout i j t w c found in
          let c' =
            finish_task-IsConsistent runtime i cancelled none (some (reaped_error runtime timeout))
              w c in
          elim (Result-cases (collect runtime after.0 reaped)) [
            | inr (x, e) ↦ absurd (ground (arith, reap_one-collected runtime timeout i w reaped c))
            | inl (reaped', e) ↦ elim (Bool-cases (i == j)) [
              | inl same ↦ (
                runtime.time w.reads,
                ground (
                  arith,
                  reap_each-kept stale reaped' (reaped_at runtime timeout (runtime.time w.reads) t)
                      after.1 c' (ground (arith, first)),
                ),
              )
              | inr other ↦
                  let (at, ended) =
                    reap_each-ended stale reaped' t after.1 c' (ground (arith, first))
                      (ground arith) open_ in
                  (at, ground arith)
            ]
          ]
    ]

    reap_each-none :
        (stale : List Task) (reaped : List TaskResponse) (w : World)
        → Consistent runtime w
        → lookup j w.tasks ≡ none
        → lookup j (reap_each runtime timeout stale reaped w).1.tasks ≡ none
    unfolding reap_each
    reap_each-none [] reaped w c absent = absent
    reap_each-none (x ∷ stale) reaped w c absent = elim (Option-cases x.id) [
      | inl unsaved ↦ ground (arith, reap_each-none stale reaped w c absent)
      | inr (i, named) ↦
          let after = reap_one runtime timeout i w in
          let first = reap_one-none runtime timeout i j w c absent in
          elim (Result-cases (collect runtime after.0 reaped)) [
            | inl (reaped', e) ↦ ground (
              arith,
              reap_each-none stale reaped' after.1
                  (finish_task-IsConsistent runtime i cancelled none
                    (some (reaped_error runtime timeout)) w c)
                  first,
            )
            | inr (x, e) ↦ ground (arith, first)
          ]
    ]

  reap_each-ok :
      (stale : List Task) (reaped : List TaskResponse) (w : World)
      → Consistent runtime w
      → is_ok (reap_each runtime timeout stale reaped w).0 ≡ true
  unfolding reap_each
  reap_each-ok [] reaped w c = refl
  reap_each-ok (x ∷ stale) reaped w c = elim (Option-cases x.id) [
    | inl unsaved ↦ ground (arith, reap_each-ok stale reaped w c)
    | inr (i, named) ↦
        elim (Result-cases (collect runtime (reap_one runtime timeout i w).0 reaped)) [
          | inl (reaped', e) ↦ ground (
            arith,
            reap_each-ok stale reaped' (reap_one runtime timeout i w).1 (
                finish_task-IsConsistent runtime i cancelled none
                  (some (reaped_error runtime timeout)) w c),
          )
          | inr (x, e) ↦ absurd (ground (arith, reap_one-collected runtime timeout i w reaped c))
        ]
  ]

  -- On consistent stores `reap_stale_tasks` returns, whatever the timeout. A task that was RUNNING and
  -- started more than the timeout before the clock was read is then CANCELLED with the error that
  -- says so, every other task is what it was, there is no new one, and no employee has a
  -- current task that was stale.
  pub reap_stale_tasks_lem :
      (w : World)
      → Consistent runtime w
      → let (r, w') = reap_stale_tasks runtime timeout w in
        let cutoff = runtime.time w.reads - timeout in
        (is_ok r ≡ true)
        × ((j : ℕ) (t : Task)
            → lookup j w.tasks ≡ some t
            → is_stale cutoff t ≡ true
            → (at : ℕ) × (lookup j w'.tasks ≡ some (reaped_at runtime timeout at t)))
        × ((j : ℕ) (t : Task)
            → lookup j w.tasks ≡ some t
            → is_stale cutoff t ≡ false
            → lookup j w'.tasks ≡ some t)
        × ((j : ℕ) → lookup j w.tasks ≡ none → lookup j w'.tasks ≡ none)
        × ((i j : ℕ) (e : Employee) (t : Task)
            → lookup j w.tasks ≡ some t
            → is_stale cutoff t ≡ true
            → lookup i w'.employees ≡ some e
            → points_to e.current_task_id j ≡ false)
  unfolding reap_stale_tasks is_stale can_transition
  reap_stale_tasks_lem w c =
      let at = runtime.time w.reads in
      let stale = keep (is_stale (at - timeout)) (values w.tasks) in
      let v = record w { reads = w.reads + 1 } in
      let listed = λ (j : ℕ) (t : Task) (found : lookup j w.tasks ≡ some t).
        lists-keep (is_stale (at - timeout)) j w.tasks c.keyed_tasks c.task_id in
      let ended : (j : ℕ) (t : Task)
          → lookup j w.tasks ≡ some t
          → is_stale (at - timeout) t ≡ true
          → (at : ℕ) × (lookup j (reap_stale_tasks runtime timeout w).1.tasks
              ≡ some (reaped_at runtime timeout at t)) =
        λ j t found old.
          reap_each-ended j stale [] t v c found (ground (arith, listed j t found))
            (ground arith) in
      let after = reap_stale_tasks-IsConsistent runtime timeout w c in
      (
        reap_each-ok stale [] v c,
        ended,
        λ j t found young. reap_each-kept j stale [] t v c found (ground (arith, listed j t found)),
        λ j absent. reap_each-none j stale [] v c absent,
        λ i j e t found old held.
            let (at', gone) = ended j t found old in
            elim (Bool-cases (points_to e.current_task_id j)) [
              | inr other ↦ other
              | inl holds ↦
                  let r = after.at_work i j e held (ground arith) in
                  absurd (ground (arith, gone, r.found, r.runs))
            ],
      )

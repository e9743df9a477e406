-- ===== src/Tasks/History/Calls.antt =====
-- Each call follows the life of the tasks.
use mini_company.Prelude.{
  ℕ, ◌+◌, ◌-◌, ◌≡◌, refl, sym, inl, inr, true, Option, none, some, List, [], ◌∷◌, keep, subst,
  Option-cases, arith,
}
use mini_company.Prelude.Text.{Text, codes}
use mini_company.Prelude.Dict.{lookup, insert, values, lookup-insert}
use mini_company.Tasks.Domain.{TaskStatus, queued, running, cancelled, status_eq, Task}
use mini_company.Tasks.StateMachine.{
  can_transition, Reach, here, next, can_pick_up, can_withdraw, can_abandon,
}
use mini_company.Tasks.Repository.{earliest, is_stale}
use mini_company.Tasks.Responses.{TaskResponse}
use mini_company.Tasks.Service.{
  assign_task, cancel_task, claim_next_task, start_task, finish_task, reap_each, reap_stale_tasks,
  new_task, collect, reaped_error,
}
use mini_company.Tasks.Invariant.{earliest-lookup, finish_task-IsConsistent}
use mini_company.Tasks.History.Later.{Follows, follow_refl, follow_trans, follow_add, follow_set}
use mini_company.Company.World.{Runtime, World, Result-cases}
use mini_company.Company.Consistent.{Consistent}

is_queued : (s : TaskStatus) → status_eq s queued ≡ true → s ≡ queued
is_queued s h = ground arith

module _ (runtime : Runtime) where
  pub assign_task-Follows :
      (i : ℕ) (kind : Text) (title : Option Text) (w : World)
      → Consistent runtime w
      → Follows w.tasks (assign_task runtime i kind title w).1.tasks
  unfolding assign_task
  assign_task-Follows i kind title w c = ground (
    arith,
    follow_refl w.tasks,
    follow_add (runtime.object_id w.drawn)
        (record (new_task i kind title queued none (runtime.time w.reads)) {
          id = some (runtime.object_id w.drawn);
        })
        w.tasks (c.free_task w.drawn (omega arith)),
  )

  pub start_task-Follows :
      (i : ℕ) (kind : Text) (title : Option Text) (w : World)
      → Consistent runtime w
      → Follows w.tasks (start_task runtime i kind title w).1.tasks
  unfolding start_task
  start_task-Follows i kind title w c = ground (
    arith,
    follow_refl w.tasks,
    follow_add (runtime.object_id w.drawn)
        (record (new_task i kind title running (some (runtime.time w.reads))
          (runtime.time w.reads)) { id = some (runtime.object_id w.drawn) })
        w.tasks (c.free_task w.drawn (omega arith)),
  )

  pub cancel_task-Follows :
      (i : ℕ) (w : World) → Consistent runtime w → Follows w.tasks (cancel_task runtime i w).1.tasks
  unfolding cancel_task
  cancel_task-Follows i w c = elim (Option-cases (lookup i w.tasks)) [
    | inl absent ↦ ground (arith, follow_refl w.tasks)
    | inr (t, found) ↦ ground (
      arith,
      follow_refl w.tasks,
      c.task_id i t found,
      λ (h : status_eq t.status queued ≡ true).
          follow_set i t
            (record t { status = cancelled; finished_at = some (runtime.time w.reads) }) w.tasks
            found refl
            (subst (λ s. Reach s cancelled) (sym (is_queued t.status h)) (next here can_withdraw)),
    )
  ]

  pub finish_task-Follows :
      (i : ℕ) (outcome : TaskStatus) (summary error : Option Text) (w : World)
      → Consistent runtime w
      → Follows w.tasks (finish_task runtime i outcome summary error w).1.tasks
  unfolding finish_task
  finish_task-Follows i outcome summary error w c = elim (Option-cases (lookup i w.tasks)) [
    | inl absent ↦ ground (arith, follow_refl w.tasks)
    | inr (t, found) ↦ ground (
      arith,
      follow_refl w.tasks,
      c.task_id i t found,
      λ (h : can_transition t.status outcome ≡ true).
          follow_set i t
            (record t {
              status = outcome;
              finished_at = some (runtime.time w.reads);
              summary = summary;
              error = error;
            })
            w.tasks found refl (next here h),
    )
  ]

  pub claim_next_task-Follows :
      (w : World) → Consistent runtime w → Follows w.tasks (claim_next_task runtime w).1.tasks
  unfolding claim_next_task
  claim_next_task-Follows w c =
      elim (Option-cases (earliest (keep (λ u. status_eq u.status queued) (values w.tasks)))) [
        | inl empty ↦ ground (arith, follow_refl w.tasks)
        | inr (t, picked) ↦
            let ((i, found), waits) = earliest-lookup w.tasks t c.keyed_tasks picked in
            let named = c.task_id i t found in
            let claimed = record t { status = running; started_at = some (runtime.time w.reads) } in
            let first = follow_set i t claimed w.tasks found refl (
              subst (λ s. Reach s running) (sym (is_queued t.status waits))
                (next here can_pick_up)) in
            let second =
              follow_set i claimed
                (record claimed {
                  status = cancelled;
                  finished_at = some (runtime.time (w.reads + 1));
                  error = some (codes "담당 직원이 존재하지 않습니다");
                })
                (insert i claimed w.tasks) (ground (arith, lookup-insert i i claimed w.tasks)) refl
                (next here can_abandon) in
            ground (arith, named, first, follow_trans first second)
      ]

  reap_each-Follows :
      (timeout : ℕ) (stale : List Task) (reaped : List TaskResponse) (w : World)
      → Consistent runtime w
      → Follows w.tasks (reap_each runtime timeout stale reaped w).1.tasks
  unfolding reap_each
  reap_each-Follows timeout [] reaped w c = follow_refl w.tasks
  reap_each-Follows timeout (t ∷ stale) reaped w c = elim (Option-cases t.id) [
    | inl unsaved ↦ ground (arith, reap_each-Follows timeout stale reaped w c)
    | inr (i, named) ↦
        let error = some (reaped_error runtime timeout) in
        let after = finish_task runtime i cancelled none error w in
        let first = finish_task-Follows i cancelled none error w c in
        let c' = finish_task-IsConsistent runtime i cancelled none error w c in
        elim (Result-cases (collect runtime after.0 reaped)) [
          | inl (reaped', e) ↦
              ground
                (arith, follow_trans first (reap_each-Follows timeout stale reaped' after.1 c'))
          | inr (x, e) ↦ ground (arith, first)
        ]
  ]

  pub reap_stale_tasks-Follows :
      (timeout : ℕ) (w : World)
      → Consistent runtime w
      → Follows w.tasks (reap_stale_tasks runtime timeout w).1.tasks
  unfolding reap_stale_tasks
  reap_stale_tasks-Follows timeout w c =
      reap_each-Follows timeout (keep (is_stale (runtime.time w.reads - timeout)) (values w.tasks))
        [] (record w { reads = w.reads + 1 }) c

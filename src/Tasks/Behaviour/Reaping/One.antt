-- ===== src/Tasks/Behaviour/Reaping/One.antt =====
-- What `reap_stale_tasks` makes of one task.
use mini_company.Prelude.{
  ℕ, ◌≡◌, refl, inl, inr, Bool, true, false, ◌&&◌, none, some, List, [], ◌∷◌, any, keep, points_to,
  ◌==◌, if◌then◌else◌, Bool-cases, Option-cases, arith,
}
use mini_company.Prelude.Dict.{Dict, lookup, values, lookup-insert, IsKeyed}
use mini_company.Tasks.Domain.{Task, cancelled}
use mini_company.Tasks.StateMachine.{can_transition}
use mini_company.Tasks.Responses.{TaskResponse}
use mini_company.Tasks.Service.{finish_task, reaped_error, collect}
use mini_company.Tasks.Behaviour.Finishing.{finish_task_lem, refusal}
use mini_company.Company.World.{
  Runtime, World, Result, task_not_found, invalid_task_transition, is_ok,
}
use mini_company.Company.Consistent.{Consistent}

-- A task of a list has the id `j`.
abbrev pub lists : ℕ → List Task → Bool
lists j tasks = any (λ (t : Task). points_to t.id j) tasks

-- The tasks of a dict that pass a test include the one at `j` exactly if that one passes.
pub lists-keep :
    (p : Task → Bool) (j : ℕ) (d : Dict Task)
    → IsKeyed d
    → ((i : ℕ) (t : Task) → lookup i d ≡ some t → t.id ≡ some i)
    → lists j (keep p (values d)) ≡ (elim (lookup j d) [ none ↦ false | some t ↦ p t ])
unfolding lookup values
lists-keep p j [] keyed named = refl
lists-keep p j ((k, x) ∷ d) (free, keyed) named =
    ground
      (arith, named k x (ground arith), lists-keep p j d keyed (λ i t h. named i t (ground arith)))

module _ (runtime : Runtime) (timeout : ℕ) where
  -- What reaping makes of a task.
  abbrev pub reaped_at : ℕ → Task → Task
  reaped_at at t = record t {
    status = cancelled;
    finished_at = some at;
    summary = none;
    error = some (reaped_error runtime timeout);
  }

  abbrev pub reap_one : ℕ → World → Result TaskResponse × World
  reap_one i = finish_task runtime i cancelled none (some (reaped_error runtime timeout))

  pub reap_one-lookup :
      (i j : ℕ) (t : Task) (w : World)
      → Consistent runtime w
      → lookup j w.tasks ≡ some t
      → lookup j (reap_one i w).1.tasks ≡ (
          if (i == j) && can_transition t.status cancelled
          then some (reaped_at (runtime.time w.reads) t)
          else some t)
  reap_one-lookup i j t w c found =
      let s = finish_task_lem runtime i cancelled none (some (reaped_error runtime timeout)) w c in
      elim (Option-cases (lookup i w.tasks)) [
        | inl absent ↦ ground (arith, s.1 task_not_found (rw (refusal, absent)))
        | inr (u, held) ↦ elim (Bool-cases (can_transition u.status cancelled)) [
          | inl allowed_ ↦ ground (
            arith,
            (s.2 u held (rw (refusal, held, allowed_))).0,
            lookup-insert i j (reaped_at (runtime.time w.reads) u) w.tasks,
          )
          | inr refused ↦ ground (arith, s.1 invalid_task_transition (rw (refusal, held, refused)))
        ]
      ]

  pub reap_one-none :
      (i j : ℕ) (w : World)
      → Consistent runtime w
      → lookup j w.tasks ≡ none
      → lookup j (reap_one i w).1.tasks ≡ none
  reap_one-none i j w c absent =
      let s = finish_task_lem runtime i cancelled none (some (reaped_error runtime timeout)) w c in
      elim (Option-cases (lookup i w.tasks)) [
        | inl gone ↦ ground (arith, s.1 task_not_found (rw (refusal, gone)))
        | inr (u, held) ↦ elim (Bool-cases (can_transition u.status cancelled)) [
          | inl allowed_ ↦ ground (
            arith,
            (s.2 u held (rw (refusal, held, allowed_))).0,
            lookup-insert i j (reaped_at (runtime.time w.reads) u) w.tasks,
          )
          | inr refused ↦ ground (arith, s.1 invalid_task_transition (rw (refusal, held, refused)))
        ]
      ]

  -- The handler of the loop lets nothing through.
  pub reap_one-collected :
      (i : ℕ) (w : World) (reaped : List TaskResponse)
      → Consistent runtime w
      → is_ok (collect runtime (reap_one i w).0 reaped) ≡ true
  reap_one-collected i w reaped c =
      let s = finish_task_lem runtime i cancelled none (some (reaped_error runtime timeout)) w c in
      ground (arith, s.0)

-- ===== src/Tasks/Invariant/Claiming.antt =====
-- `claim_next_task` keeps the employees and the tasks in agreement.
use mini_company.Prelude.{
  ℕ, ◌+◌, ◌≡◌, ◌⊎◌, refl, subst, inl, inr, true, some, List, [], ◌∷◌, Option-cases, All, keep,
  keep-All, keep_test, arith,
}
use mini_company.Prelude.Text.{codes}
use mini_company.Prelude.Dict.{Dict, IsKeyed, lookup, insert, values, values-All, lookup-insert}
use mini_company.Tasks.Domain.{Task, queued, running, cancelled, status_eq}
use mini_company.Tasks.Repository.{earliest}
use mini_company.Tasks.Service.{claim_next_task}
use mini_company.Employees.Domain.{working}
use mini_company.Company.World.{Runtime, World}
use mini_company.Company.Consistent.{Consistent, set_task-IsConsistent, set_employee-IsConsistent}
use mini_company.Tasks.Invariant.Freeing.{unheld-IsConsistent}

earliest_cases :
    (x t : Task) (xs : List Task) → earliest (x ∷ xs) ≡ some t → (x ≡ t) ⊎ (earliest xs ≡ some t)
unfolding earliest
earliest_cases x t xs e = ground arith

-- What holds of every task holds of the one that was created earliest.
earliest-All :
    (P : Task → Type 0) (tasks : List Task) (t : Task) → All P tasks → earliest tasks ≡ some t → P t
unfolding earliest
earliest-All P [] t h e = cc
earliest-All P (x ∷ xs) t h e = elim (earliest_cases x t xs e) [
  | inl first ↦ subst P first h.0
  | inr later ↦ earliest-All P xs t h.1 later
]

-- The task that a claim picks is stored, and QUEUED.
pub earliest-lookup :
    (tasks : Dict Task) (t : Task)
    → IsKeyed tasks
    → earliest (keep (λ u. status_eq u.status queued) (values tasks)) ≡ some t
    → ((i : ℕ) × (lookup i tasks ≡ some t)) × (status_eq t.status queued ≡ true)
earliest-lookup tasks t keyed e = (
  earliest-All (λ u. (i : ℕ) × (lookup i tasks ≡ some u)) _ t
      (keep-All _ _ (values tasks) (values-All _ tasks keyed (λ i u found. (i, found)))) e,
  earliest-All (λ u. status_eq u.status queued ≡ true) _ t (keep_test _ (values tasks)) e,
)

module _ (runtime : Runtime) where
  pub claim_next_task-IsConsistent :
      (w : World) → Consistent runtime w → Consistent runtime (claim_next_task runtime w).1
  unfolding claim_next_task
  claim_next_task-IsConsistent w c =
      elim (Option-cases (earliest (keep (λ u. status_eq u.status queued) (values w.tasks)))) [
        | inl empty ↦ ground arith
        | inr (t, picked) ↦
            let ((i, found), waits) = earliest-lookup w.tasks t c.keyed_tasks picked in
            let named = c.task_id i t found in
            let claimed = record t { status = running; started_at = some (runtime.time w.reads) } in
            let c' =
              set_task-IsConsistent runtime c i t claimed found named refl (λ k e h p. refl) in
            let found' : lookup i (insert i claimed w.tasks) ≡ some claimed =
              ground (arith, lookup-insert i i claimed w.tasks) in
            elim (Option-cases (lookup t.employee_id w.employees)) [
              | inl gone ↦ ground (
                arith,
                unheld-IsConsistent runtime i claimed
                    (record claimed {
                      status = cancelled;
                      finished_at = some (runtime.time (w.reads + 1));
                      error = some (codes "담당 직원이 존재하지 않습니다");
                    })
                    c' found' named refl (λ e h. absurd (ground arith)),
              )
              | inr (e, held) ↦ ground (
                arith,
                c.employee_id t.employee_id e held,
                set_employee-IsConsistent runtime c' t.employee_id e
                    (record e { status = working; current_task_id = t.id }) held
                    (c.employee_id t.employee_id e held) (rw named)
                    (λ j p. record {
                      task = claimed;
                      found =
                          subst (λ k. lookup k (insert i claimed w.tasks) ≡ some claimed)
                            (let same : i ≡ j = cc in same) found';
                      owned = refl;
                      runs = refl;
                    }),
              )
            ]
      ]

-- ===== src/Tasks/Behaviour/Assigning.antt =====
-- `assign_task`.
use mini_company.Prelude.{
  ℕ, suc, ◌+◌, ◌≡◌, refl, Bool, false, not, ◌&&◌, Option, none, some, List, [], ◌∷◌, any, keep,
  length, ltb, ◌==◌, if◌then◌else◌, insert_sorted, sorted_by, is_some, Option-cases, inl, inr,
  arith,
}
use mini_company.Prelude.Text.{Text}
use mini_company.Prelude.Dict.{lookup, insert, values}
use mini_company.Tasks.Domain.{queued, status_eq, Task}
use mini_company.Tasks.Repository.{is_before}
use mini_company.Tasks.Service.{assign_task, new_task}
use mini_company.Company.World.{Runtime, World, is_ok}

module _ {ℓ} {A : Type ℓ} where
  length-insert_sorted :
      (before : A → A → Bool) (x : A) (xs : List A)
      → length (insert_sorted before x xs) ≡ suc (length xs)
  length-insert_sorted before x [] = refl
  length-insert_sorted before x (y ∷ ys) = ground (arith, length-insert_sorted before x ys)

  sorted_any :
      (before : A → A → Bool) (p : A → Bool) (xs : List A)
      → ltb 0 (length (sorted_by before (keep p xs))) ≡ any p xs
  sorted_any before p [] = refl
  sorted_any before p (x ∷ xs) =
      ground (
        arith,
        sorted_any before p xs,
        length-insert_sorted before x (sorted_by before (keep p xs)),
      )

-- A task of the employee waits.
abbrev pub has_waiting : ℕ → World → Bool
has_waiting i w =
    any (λ (t : Task). t.employee_id == i && status_eq t.status queued) (values w.tasks)

-- The employee exists, has no current task and none that waits.
abbrev pub can_take : ℕ → World → Bool
can_take i w = elim (lookup i w.employees) [
  | none ↦ false
  | some e ↦ not (is_some e.current_task_id) && not (has_waiting i w)
]

-- `assign_task` returns exactly when the employee exists, has no current task and no stored task
-- of its waits. Then the one change to the stores is a new QUEUED task, with the title stripped,
-- under a fresh id; otherwise it raises and nothing at all is changed.
pub assign_task_lem :
    (runtime : Runtime) (i : ℕ) (kind : Text) (title : Option Text) (w : World)
    → let (r, w') = assign_task runtime i kind title w in
      (is_ok r ≡ can_take i w)
      × (w' ≡ (
          if can_take i w
          then record w {
            tasks =
                insert
                  (runtime.object_id w.drawn)
                  (record (new_task i kind title queued none (runtime.time w.reads)) {
                    id = some (runtime.object_id w.drawn);
                  })
                  w.tasks;
            reads = w.reads + 1;
            drawn = w.drawn + 1;
          }
          else w))
unfolding assign_task
assign_task_lem runtime i kind title w = elim (Option-cases (lookup i w.employees)) [
  | inl absent ↦ (ground arith, ground arith)
  | inr (e, found) ↦
      let pending =
        sorted_any (λ s t. not (is_before s.created_at s.id t.created_at t.id))
          (λ (t : Task). t.employee_id == i && status_eq t.status queued) (values w.tasks) in
      (ground (arith, pending), ground (arith, pending))
]

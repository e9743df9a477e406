-- ===== src/Tasks/History/Later.antt =====
-- How the stored tasks may develop.
use mini_company.Prelude.{
  ℕ, ◌≡◌, ◌∙◌, refl, ap, subst, inl, inr, none, some, ◌==◌, Bool-cases, arith,
}
use mini_company.Prelude.Dict.{Dict, lookup, insert, lookup-insert}
use mini_company.Tasks.Domain.{TaskStatus, Task}
use mini_company.Tasks.StateMachine.{Reach, here, next}

-- A later form of a task, which its status reaches by allowed transitions.
pub record IsLater (after : Dict Task) (i : ℕ) (t : Task) : Type 0 where
  pub task : Task
  pub found : lookup i after ≡ some task
  pub owned : task.employee_id ≡ t.employee_id
  pub reached : Reach t.status task.status

-- Every task of `before` is still there in a later form.
pub record Follows (before after : Dict Task) : Type 0 where
  pub later : (i : ℕ) (t : Task) → lookup i before ≡ some t → IsLater after i t

pub follow_refl : (tasks : Dict Task) → Follows tasks tasks
follow_refl tasks = record {
  later = λ i t h. record { task = t; found = h; owned = refl; reached = here };
}

Reach-trans : {s t u : TaskStatus} → Reach s t → Reach t u → Reach s u
Reach-trans r here = r
Reach-trans r (next q step) = next (Reach-trans r q) step

pub follow_trans : {a b c : Dict Task} → Follows a b → Follows b c → Follows a c
follow_trans f g = record {
  later = λ i t h.
      let x = f.later i t h in
      let y = g.later i x.task x.found in
      record {
        task = y.task;
        found = y.found;
        owned = y.owned ∙ x.owned;
        reached = Reach-trans x.reached y.reached;
      };
}

-- A task is added under an id that is free.
pub follow_add :
    (j : ℕ) (u : Task) (tasks : Dict Task)
    → lookup j tasks ≡ none
    → Follows tasks (insert j u tasks)
follow_add j u tasks free = record {
  later = λ i t h. record {
    task = t;
    found = ground (arith, lookup-insert j i u tasks);
    owned = refl;
    reached = here;
  };
}

-- A task is written over by a later form of itself.
pub follow_set :
    (j : ℕ) (t u : Task) (tasks : Dict Task)
    → lookup j tasks ≡ some t
    → u.employee_id ≡ t.employee_id
    → Reach t.status u.status
    → Follows tasks (insert j u tasks)
follow_set j t u tasks found owned reached = record {
  later = λ i v h. elim (Bool-cases (j == i)) [
    | inl same ↦
        let e : t ≡ v = ground arith in
        record {
          task = u;
          found = ground (arith, lookup-insert j i u tasks);
          owned = owned ∙ ap (λ (x : Task). x.employee_id) e;
          reached = subst (λ (x : Task). Reach x.status u.status) e reached;
        }
    | inr other ↦ record {
      task = v;
      found = ground (arith, lookup-insert j i u tasks);
      owned = refl;
      reached = here;
    }
  ];
}

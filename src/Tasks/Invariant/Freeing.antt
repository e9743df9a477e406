-- ===== src/Tasks/Invariant/Freeing.antt =====
-- A task may be written over once no employee holds it.
use mini_company.Prelude.{points_to, ◌∙◌, ℕ, ◌≡◌, false, none, some, arith}
use mini_company.Prelude.Dict.{Dict, lookup, insert, lookup-insert}
use mini_company.Tasks.Domain.{Task}
use mini_company.Employees.Domain.{Employee, employee_status_eq, working}
use mini_company.Company.World.{Runtime}
use mini_company.Company.Consistent.{IsConsistent, set_task-IsConsistent, set_employee-IsConsistent}

module _ (runtime : Runtime) where
  -- A task may be written over when its employee does not hold it.
  pub unheld-IsConsistent :
      (i : ℕ) (t u : Task) {drawn : ℕ} {tasks : Dict Task} {employees : Dict Employee}
      → IsConsistent runtime drawn tasks employees
      → lookup i tasks ≡ some t
      → u.id ≡ some i
      → u.employee_id ≡ t.employee_id
      → ((e : Employee)
          → lookup t.employee_id employees ≡ some e
          → points_to e.current_task_id i ≡ false)
      → IsConsistent runtime drawn (insert i u tasks) employees
  unheld-IsConsistent i t u c found named owned unheld =
      set_task-IsConsistent runtime c i t u found named owned (λ k e h p.
        let r = c.at_work k i e h p in
        let same : t.employee_id ≡ k = cc (r.found, r.owned) in
        absurd (ground (arith, unheld e (cc))))

  -- The employee whose current task ends is freed, and then the task may be written over.
  pub freed-IsConsistent :
      (i : ℕ) (t u : Task) (e f : Employee) {drawn : ℕ} {tasks : Dict Task}
      {employees : Dict Employee}
      → IsConsistent runtime drawn tasks employees
      → lookup i tasks ≡ some t
      → u.id ≡ some i
      → u.employee_id ≡ t.employee_id
      → lookup t.employee_id employees ≡ some e
      → f.id ≡ e.id
      → f.current_task_id ≡ none
      → employee_status_eq f.status working ≡ false
      → IsConsistent runtime drawn (insert i u tasks) (insert t.employee_id f employees)
  freed-IsConsistent i t u e f {drawn} {tasks} {employees} c found named owned held id free rests =
      unheld-IsConsistent i t u
        (set_employee-IsConsistent runtime c t.employee_id e f held
          (id ∙ c.employee_id t.employee_id e held) (rw (rests, free))
          (λ j p. absurd (ground arith)))
        found named owned
        (λ g h. ground (arith, lookup-insert t.employee_id t.employee_id f employees))

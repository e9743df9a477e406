-- ===== src/Employees/Invariant.antt =====
-- The operations of `EmployeeService` keep the employees and the tasks in agreement.
use mini_company.Prelude.{
  ℕ, ◌≡◌, ◌∙◌, sym, refl, inl, inr, Option, none, some, find_first, map, Option-cases, arith,
}
use mini_company.Prelude.Text.{Text, text_eq, strip}
use mini_company.Prelude.Dict.{lookup, values, find_first-lookup}
use mini_company.Employees.Domain.{Role, DeskPosition, Employee, role_llm_profile}
use mini_company.Employees.Desk.{next_free_desk}
use mini_company.Employees.Service.{
  hire, update, fire, hire_or_update, new_employee, changed_name, changed_role, with_changes,
  save_changes, reject_taken,
}
use mini_company.Employees.Repository.{employees_matching}
use mini_company.Company.World.{Runtime, World}
use mini_company.Company.Consistent.{
  Consistent, add_employee-IsConsistent, set_employee-IsConsistent, remove_employee-IsConsistent,
}

-- A change of name or role leaves the work of an employee alone.
with_changes_keeps :
    (name : Option Text) (role : Option Role) (e : Employee)
    → let f = with_changes name role e in
      (f.id ≡ e.id) × (f.status ≡ e.status) × (f.current_task_id ≡ e.current_task_id)
unfolding with_changes
with_changes_keeps name role e = ground arith

module _ (runtime : Runtime) where
  pub fire-IsConsistent :
      (i : ℕ) (w : World) → Consistent runtime w → Consistent runtime (fire i w).1
  unfolding fire
  fire-IsConsistent i w c = ground (arith, remove_employee-IsConsistent runtime c i)

  pub hire-IsConsistent :
      (name : Text) (role : Role) (w : World)
      → Consistent runtime w
      → Consistent runtime (hire runtime name role w).1
  unfolding hire
  hire-IsConsistent name role w c =
      let desk = next_free_desk (map (λ e. e.desk) (employees_matching none none w)) in
      ground (
        arith,
        add_employee-IsConsistent runtime c
            (record (new_employee (strip name) role desk (runtime.time w.reads)) {
              id = some (runtime.object_id w.drawn);
            })
            refl refl refl,
      )

  save_changes-IsConsistent :
      (i : ℕ) (name : Option Text) (role : Option Role) (e : Employee) (w : World)
      → Consistent runtime w
      → lookup i w.employees ≡ some e
      → Consistent runtime (save_changes runtime name role e w).1
  unfolding save_changes
  save_changes-IsConsistent i name role e w c found =
      let (id, status, current) = with_changes_keeps name role e in
      ground (
        arith,
        id,
        c.employee_id i e found,
        set_employee-IsConsistent runtime c i e (with_changes name role e) found
            (id ∙ c.employee_id i e found) (rw (status, current) (c.busy i e found))
            (λ j p. c.at_work i j e found (sym current ∙ p)),
      )

  reject_taken_keeps : (i : ℕ) (name : Option Text) (w : World) → (reject_taken i name w).1 ≡ w
  unfolding reject_taken
  reject_taken_keeps i name w = ground arith

  pub update-IsConsistent :
      (i : ℕ) (name : Option Text) (role : Option Role) (w : World)
      → Consistent runtime w
      → Consistent runtime (update runtime i name role w).1
  unfolding update
  update-IsConsistent i name role w c = elim (Option-cases (lookup i w.employees)) [
    | inl absent ↦ ground arith
    | inr (e, found) ↦ ground (
      arith,
      reject_taken_keeps i (changed_name name e) w,
      save_changes-IsConsistent i (changed_name name e) (changed_role role e) e w c found,
    )
  ]

  pub hire_or_update-IsConsistent :
      (name : Text) (role : Role) (desk : DeskPosition) (w : World)
      → Consistent runtime w
      → Consistent runtime (hire_or_update runtime name role desk w).1
  unfolding hire_or_update
  hire_or_update-IsConsistent name role desk w c =
      elim (Option-cases (find_first (λ e. text_eq e.name name) (values w.employees))) [
        | inl new_ ↦ ground (
          arith,
          add_employee-IsConsistent runtime c
              (record (new_employee name role desk (runtime.time w.reads)) {
                id = some (runtime.object_id w.drawn);
              })
              refl refl refl,
        )
        | inr (e, picked) ↦
            let ((i, found), named) = find_first-lookup _ w.employees e c.keyed_employees picked in
            ground (
              arith,
              c.employee_id i e found,
              set_employee-IsConsistent runtime c i e
                  (record e { role = role; desk = desk; llm_profile = role_llm_profile role }) found
                  (c.employee_id i e found) (c.busy i e found) (λ j p. c.at_work i j e found p),
            )
      ]

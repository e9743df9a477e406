-- ===== src/Employees/Repository.antt =====
-- The repository of employees, as backend/tests/fakes/employee_repository.py implements its
-- protocol.
use mini_company.Prelude.{
  ℕ, Bool, true, Option, none, some, List, ◌&&◌, keep, find_first, sorted_by, is_some,
}
use mini_company.Prelude.Text.{Text, text_eq, text_leb}
use mini_company.Prelude.Dict.{lookup, insert, remove, values}
use mini_company.Employees.Domain.{Role, role_eq, EmployeeStatus, employee_status_eq, Employee}
use mini_company.Company.World.{
  Runtime, World, Action, ok, pure, gets, modify, ◌>>=◌, ◌>>◌, draw_id,
}

-- `get`
unfoldable pub get_employee : ℕ → Action (Option Employee)
get_employee employee_id = gets (λ w. lookup employee_id w.employees)

-- `get_by_name`
unfoldable pub get_by_name : Text → Action (Option Employee)
get_by_name name = gets (λ w. find_first (λ e. text_eq e.name name) (values w.employees))

abbrev pub matches {ℓ} : {A : Type ℓ} → (A → A → Bool) → Option A → A → Bool
matches eq none a = true
matches eq (some b) a = eq a b

-- `list`, by name
abbrev pub employees_matching : Option Role → Option EmployeeStatus → World → List Employee
employees_matching role status w =
    sorted_by (λ d e. text_leb d.name e.name)
      (keep (λ e. matches role_eq role e.role && matches employee_status_eq status e.status)
        (values w.employees))

unfoldable pub list_employees_matching :
    Option Role → Option EmployeeStatus → Action (List Employee)
list_employees_matching role status = gets (employees_matching role status)

-- `self._by_id[employee.id] = employee`
unfoldable pub put_employee : ℕ → Employee → Action Employee
put_employee i employee =
    modify (λ w. record w { employees = insert i employee w.employees }) >> pure employee

-- `save`: an employee without an id gets one.
unfoldable pub save_employee : Runtime → Employee → Action Employee
unfolding put_employee
save_employee runtime employee = elim employee.id [
  | none ↦ do i ← draw_id runtime; put_employee i (record employee { id = some i })
  | some i ↦ put_employee i employee
]

-- `delete`: whether there was one.
unfoldable pub delete_employee : ℕ → Action Bool
delete_employee i w =
    (ok (is_some (lookup i w.employees)), record w { employees = remove i w.employees })

-- ===== src/Employees/Service.antt =====
-- backend/src/employees/service.py: `class EmployeeService`, one action for each method.
use mini_company.Prelude.{
  ℕ, not, ◌||◌, Option, none, some, List, map, is_some, points_to, if◌then◌else◌,
}
use mini_company.Prelude.Text.{Text, strip, text_eq}
use mini_company.Employees.Domain.{
  Role, role_eq, role_llm_profile, EmployeeStatus, offline, DeskPosition, Employee,
}
use mini_company.Employees.Desk.{next_free_desk}
use mini_company.Employees.Repository.{
  get_employee, get_by_name, list_employees_matching, save_employee, delete_employee,
}
use mini_company.Tasks.Responses.{for_each}
use mini_company.Company.World.{
  Runtime, Action, pure, or_raise, raise_if, now, ◌>>=◌, ◌>>◌, employee_not_found,
  employee_name_taken, employee_at_work, value_error,
}

-- backend/src/employees/schemas.py
pub record EmployeeResponse : Type 0 where
  pub id : ℕ
  pub name : Text
  pub role : Role
  pub status : EmployeeStatus
  pub desk : DeskPosition
  pub current_task_id : Option ℕ
  pub llm_profile : Text
  pub hired_at : ℕ

-- `EmployeeResponse.from_domain`
unfoldable pub employee_response : Employee → Action EmployeeResponse
employee_response employee = do
  i ← or_raise employee.id value_error
  pure (record {
    id = i;
    name = employee.name;
    role = employee.role;
    status = employee.status;
    desk = employee.desk;
    current_task_id = employee.current_task_id;
    llm_profile = employee.llm_profile;
    hired_at = employee.hired_at;
  })

-- `list_employees`
unfoldable pub list_employees : Option Role → Option EmployeeStatus → Action (List EmployeeResponse)
unfolding list_employees_matching for_each employee_response
list_employees role status = do
  employees ← list_employees_matching role status
  for_each employee_response employees

-- `get_employee` of the service
unfoldable pub show_employee : ℕ → Action EmployeeResponse
unfolding get_employee employee_response
show_employee employee_id = do
  employee ← or_raise (← get_employee employee_id) employee_not_found
  employee_response employee

-- `Employee(...)` as `hire` and `hire_or_update` make it; a new employee is OFFLINE and free.
abbrev pub new_employee : Text → Role → DeskPosition → ℕ → Employee
new_employee name role desk hired_at = record {
  id = none;
  name = name;
  role = role;
  status = offline;
  desk = desk;
  current_task_id = none;
  llm_profile = role_llm_profile role;
  hired_at = hired_at;
}

-- The new name of an employee: the one that is given, stripped, unless it is its name already.
unfoldable pub changed_name : Option Text → Employee → Option Text
changed_name none employee = none
changed_name (some name) employee =
    if text_eq (strip name) employee.name then none else some (strip name)

-- `if existing is not None and existing.id != employee_id: raise EmployeeNameTaken`
unfoldable pub reject_taken : ℕ → Option Text → Action Unit
unfolding get_by_name
reject_taken employee_id none = pure tt
reject_taken employee_id (some name) = do
  existing ← get_by_name name
  elim existing [
    | none ↦ pure tt
    | some other ↦ raise_if (not (points_to other.id employee_id)) employee_name_taken
  ]

-- The role that is given, unless it is the employee's already.
unfoldable pub changed_role : Option Role → Employee → Option Role
changed_role none employee = none
changed_role (some role) employee = if role_eq role employee.role then none else some role

-- `employee.model_copy(update=changes)`
unfoldable pub with_changes : Option Text → Option Role → Employee → Employee
with_changes none none employee = employee
with_changes (some name) none employee = record employee { name = name }
with_changes none (some role) employee = record employee {
  role = role;
  llm_profile = role_llm_profile role;
}
with_changes (some name) (some role) employee = record employee {
  name = name;
  role = role;
  llm_profile = role_llm_profile role;
}

-- `fire`
unfoldable pub fire : ℕ → Action Unit
unfolding get_employee delete_employee
fire employee_id = do
  employee ← or_raise (← get_employee employee_id) employee_not_found
  raise_if (is_some employee.current_task_id) employee_at_work
  delete_employee employee_id
  pure tt

module _ (runtime : Runtime) where
  -- `hire`
  unfoldable pub hire : Text → Role → Action EmployeeResponse
  unfolding get_by_name list_employees_matching save_employee employee_response
  hire name role = do
    let name = strip name
    existing ← get_by_name name
    raise_if (is_some existing) employee_name_taken
    employees ← list_employees_matching none none
    let desk = next_free_desk (map (λ e. e.desk) employees)
    at ← now runtime
    hired ← save_employee runtime (new_employee name role desk at)
    employee_response hired

  -- The end of `update`: nothing is saved when nothing changes.
  unfoldable pub save_changes : Option Text → Option Role → Employee → Action EmployeeResponse
  unfolding with_changes save_employee employee_response
  save_changes name role employee =
      if is_some name || is_some role
      then (do
        saved ← save_employee runtime (with_changes name role employee)
        employee_response saved)
      else employee_response employee

  -- `update`
  unfoldable pub update : ℕ → Option Text → Option Role → Action EmployeeResponse
  unfolding get_employee
  update employee_id name role = do
    employee ← or_raise (← get_employee employee_id) employee_not_found
    reject_taken employee_id (changed_name name employee)
    save_changes (changed_name name employee) (changed_role role employee) employee

  -- `hire_or_update`
  unfoldable pub hire_or_update : Text → Role → DeskPosition → Action EmployeeResponse
  unfolding get_by_name save_employee employee_response
  hire_or_update name role desk = do
    existing ← get_by_name name
    elim existing [
      | none ↦ do
        at ← now runtime
        saved ← save_employee runtime (new_employee name role desk at)
        employee_response saved
      | some employee ↦ do
        saved ←
            save_employee runtime
              (record employee { role = role; desk = desk; llm_profile = role_llm_profile role })
        employee_response saved
    ]

-- ===== src/Employees/Domain.antt =====
-- backend/src/employees/constants.py and domain.py. The coordinates of a desk are counted in
-- millionths, the tolerance by which the code compares them.
use mini_company.Prelude.{ℕ, Bool, Option, ◌==◌}
use mini_company.Prelude.Text.{Text, codes}
use mini_company.Prelude.Int.{ℤ}

-- `class Role(StrEnum)`
pub data Role : Type 0 where
  collector writer analyst trader engineer : Role

abbrev pub role_rank : Role → ℕ
role_rank collector = 0
role_rank writer = 1
role_rank analyst = 2
role_rank trader = 3
role_rank engineer = 4

abbrev pub role_eq : Role → Role → Bool
role_eq a b = role_rank a == role_rank b

-- `class EmployeeStatus(StrEnum)`
pub data EmployeeStatus : Type 0 where
  offline idle working blocked error : EmployeeStatus

abbrev pub employee_status_rank : EmployeeStatus → ℕ
employee_status_rank offline = 0
employee_status_rank idle = 1
employee_status_rank working = 2
employee_status_rank blocked = 3
employee_status_rank error = 4

abbrev pub employee_status_eq : EmployeeStatus → EmployeeStatus → Bool
employee_status_eq a b = employee_status_rank a == employee_status_rank b

-- `ROLE_LLM_PROFILES`
unfoldable pub role_llm_profile : Role → Text
role_llm_profile collector = codes "structured"
role_llm_profile analyst = codes "structured"
role_llm_profile writer = codes "writer"
role_llm_profile trader = codes "cheap"
role_llm_profile engineer = codes "reasoner"

-- `class DeskPosition(BaseModel)`
pub record DeskPosition : Type 0 where
  pub x : ℤ
  pub y : ℤ
  pub z : ℤ

-- `class Employee(BaseModel)`. An employee that is not saved yet has no id.
pub record Employee : Type 0 where
  pub id : Option ℕ
  pub name : Text
  pub role : Role
  pub status : EmployeeStatus
  pub desk : DeskPosition
  pub current_task_id : Option ℕ
  pub llm_profile : Text
  pub hired_at : ℕ

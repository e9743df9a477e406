-- ===== src/Realtime/Schemas.antt =====
-- backend/src/realtime/schemas.py. An id that the code turns into a string stays the id.
use mini_company.Prelude.{ℕ, Option}
use mini_company.Prelude.Text.{Text}
use mini_company.Tasks.Domain.{ActivityLevel}
use mini_company.Employees.Domain.{EmployeeStatus}
use mini_company.Ledger.Domain.{LedgerSummary}

-- `EmployeeStatusChangedData`
pub record StatusChanged : Type 0 where
  pub employee_id : ℕ
  pub status : EmployeeStatus
  pub current_task_id : Option ℕ

-- `ActivityCreatedData`
pub record ActivityData : Type 0 where
  pub employee_id : ℕ
  pub task_id : Option ℕ
  pub level : ActivityLevel
  pub message : Text
  pub occurred_at : ℕ

-- `OfficeEvent`
pub data OfficeEvent : Type 0 where
  employee_status_changed : StatusChanged → OfficeEvent
  activity_created : ActivityData → OfficeEvent
  ledger_summary_updated : LedgerSummary → OfficeEvent

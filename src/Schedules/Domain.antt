-- ===== src/Schedules/Domain.antt =====
-- backend/src/schedules/domain.py.
use mini_company.Prelude.{ℕ, Bool, Option}
use mini_company.Prelude.Text.{Text}

-- `class Schedule(BaseModel)`
pub record Schedule : Type 0 where
  pub id : Option ℕ
  pub employee_id : ℕ
  pub kind : Text
  pub title : Option Text
  pub hour : ℕ
  pub minute : ℕ
  pub enabled : Bool
  pub last_run_at : Option ℕ
  pub created_at : ℕ

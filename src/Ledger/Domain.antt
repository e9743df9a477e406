-- ===== src/Ledger/Domain.antt =====
-- backend/src/ledger/constants.py and domain.py. An amount is counted in a fixed smallest unit,
-- on which the sums of the ledger are exact as they are on `Decimal`.
use mini_company.Prelude.{ℕ, Bool, Option, ◌==◌}
use mini_company.Prelude.Text.{Text, codes}
use mini_company.Prelude.Int.{ℤ}

-- `class LedgerCategory(StrEnum)`
pub data LedgerCategory : Type 0 where
  revenue cost llm_cost views subscribers : LedgerCategory

abbrev pub category_rank : LedgerCategory → ℕ
category_rank revenue = 0
category_rank cost = 1
category_rank llm_cost = 2
category_rank views = 3
category_rank subscribers = 4

abbrev pub category_eq : LedgerCategory → LedgerCategory → Bool
category_eq a b = category_rank a == category_rank b

-- `class Period(StrEnum)`
pub data Period : Type 0 where
  daily monthly all : Period

-- `CATEGORY_UNITS`
unfoldable pub category_unit : LedgerCategory → Text
category_unit revenue = codes "KRW"
category_unit cost = codes "KRW"
category_unit llm_cost = codes "KRW"
category_unit views = codes "count"
category_unit subscribers = codes "count"

-- `class LedgerEntry(BaseModel)`
pub record LedgerEntry : Type 0 where
  pub id : Option ℕ
  pub employee_id : Option ℕ
  pub task_id : Option ℕ
  pub category : LedgerCategory
  pub amount : ℤ
  pub unit : Text
  pub occurred_at : ℕ
  pub memo : Option Text
  pub reverses_id : Option ℕ

-- `class LedgerSummary(BaseModel)`; `totals` has a value for every category.
pub record LedgerSummary : Type 0 where
  pub period : Period
  pub start : Option ℕ
  pub end : Option ℕ
  pub totals : LedgerCategory → ℤ
  pub net : ℤ

-- ===== src/Ledger/Service.antt =====
-- backend/src/ledger/service.py: `class LedgerService`. An amount that a response turns into a string
-- stays the amount.
use mini_company.Prelude.{ℕ, Option, none, some, List, [], ◌∷◌, is_some}
use mini_company.Prelude.Text.{Text}
use mini_company.Prelude.Int.{ℤ, pos, ◌+ℤ◌, negate}
use mini_company.Ledger.Domain.{
  LedgerCategory, revenue, cost, llm_cost, category_unit, Period, monthly, LedgerEntry,
  LedgerSummary,
}
use mini_company.Ledger.Calendar.{Calendar, resolve_period}
use mini_company.Ledger.Repository.{
  get_entry, append_entry, find_reversal_of, or_zero, sum_by_category,
}
use mini_company.Realtime.Schemas.{ledger_summary_updated}
use mini_company.Company.World.{
  Runtime, Action, pure, or_raise, raise_if, publish, now, ◌>>=◌, ◌>>◌, value_error,
  ledger_entry_not_found, entry_already_reversed, cannot_reverse_reversal,
}

-- `LedgerEntryResponse`
pub record LedgerEntryResponse : Type 0 where
  pub id : ℕ
  pub category : LedgerCategory
  pub amount : ℤ
  pub unit : Text
  pub occurred_at : ℕ
  pub employee_id : Option ℕ
  pub task_id : Option ℕ
  pub memo : Option Text
  pub reverses_id : Option ℕ

-- `LedgerEntryResponse.from_domain`
unfoldable pub entry_response : LedgerEntry → Action LedgerEntryResponse
entry_response entry = do
  i ← or_raise entry.id value_error
  pure (record {
    id = i;
    category = entry.category;
    amount = entry.amount;
    unit = entry.unit;
    occurred_at = entry.occurred_at;
    employee_id = entry.employee_id;
    task_id = entry.task_id;
    memo = entry.memo;
    reverses_id = entry.reverses_id;
  })

-- `NET_SIGNS`: the categories of profit and loss, each with its sign, 1 or -1.
pub data Sign : Type 0 where
  plus minus : Sign

unfoldable pub net_signs : List (LedgerCategory × Sign)
net_signs = (revenue, plus) ∷ (cost, minus) ∷ (llm_cost, minus) ∷ []

-- `amount * sign`
abbrev pub times_sign : ℤ → Sign → ℤ
times_sign amount plus = amount
times_sign amount minus = negate amount

-- `sum(..., Decimal(0))` over the signs, from a sum on.
unfoldable pub sum_signed : (LedgerCategory → ℤ) → List (LedgerCategory × Sign) → ℤ → ℤ
sum_signed totals [] sum = sum
sum_signed totals ((category, sign) ∷ signs) sum =
    sum_signed totals signs (sum +ℤ times_sign (totals category) sign)

-- `_net_of`
unfoldable pub net_of : (LedgerCategory → ℤ) → ℤ
unfolding sum_signed net_signs
net_of totals = sum_signed totals net_signs (pos 0)

module _ (calendar : Calendar) (runtime : Runtime) where
  -- `now or datetime.now(UTC)`
  abbrev pub ledger_now : Option ℕ → Action ℕ
  ledger_now none = now runtime
  ledger_now (some moment) = pure moment

  -- `summarize` and `_summarize`
  unfoldable pub summarize : Period → Option ℕ → Action LedgerSummary
  unfolding sum_by_category net_of
  summarize period given = do
    moment ← ledger_now given
    let window = resolve_period calendar period moment
    totals ← sum_by_category window.0 window.1
    let filled : LedgerCategory → ℤ = λ category. or_zero (totals category)
    pure (record {
      period = period;
      start = window.0;
      end = window.1;
      totals = filled;
      net = net_of filled;
    })

  -- `_publish_summary`
  unfoldable pub publish_summary : Action Unit
  unfolding summarize
  publish_summary = do summary ← summarize monthly none; publish (ledger_summary_updated summary)

  -- `record_entry`
  unfoldable pub record_entry :
      LedgerCategory → ℤ → ℕ → Option ℕ → Option ℕ → Option Text → Action LedgerEntryResponse
  unfolding append_entry publish_summary entry_response
  record_entry category amount occurred_at employee_id task_id memo = do
    entry ← append_entry runtime (record {
      id = none;
      employee_id = employee_id;
      task_id = task_id;
      category = category;
      amount = amount;
      unit = category_unit category;
      occurred_at = occurred_at;
      memo = memo;
      reverses_id = none;
    })
    publish_summary
    entry_response entry

  -- The entry that reverses another one.
  abbrev pub reversal_of : ℕ → LedgerEntry → ℕ → Option Text → LedgerEntry
  reversal_of entry_id original at memo = record {
    id = none;
    employee_id = original.employee_id;
    task_id = original.task_id;
    category = original.category;
    amount = negate original.amount;
    unit = original.unit;
    occurred_at = at;
    memo = memo;
    reverses_id = some entry_id;
  }

  -- `reverse_entry`
  unfoldable pub reverse_entry : ℕ → Option Text → Action LedgerEntryResponse
  unfolding get_entry find_reversal_of append_entry publish_summary entry_response
  reverse_entry entry_id memo = do
    original ← or_raise (← get_entry entry_id) ledger_entry_not_found
    raise_if (is_some original.reverses_id) cannot_reverse_reversal
    existing ← find_reversal_of entry_id
    raise_if (is_some existing) entry_already_reversed
    at ← now runtime
    reversal ← append_entry runtime (reversal_of entry_id original at memo)
    publish_summary
    entry_response reversal

-- ===== src/Ledger/Calendar.antt =====
-- backend/src/ledger/period.py: the window of a period, in UTC. The calendar is Python's `datetime`,
-- and a parameter: the year and the month of an instant, and the instant at which a month begins.
use mini_company.Prelude.{
  ℕ, ◌+◌, ◌*◌, ◌/◌, ◌≤◌, ◌<◌, ◌↔◌, ◌⊎◌, ◌≡◌, Option, none, some, ◌==◌, if◌then◌else◌,
}
use mini_company.Ledger.Domain.{Period, daily, monthly, all}

-- An instant lies before a month begins exactly when its own month is an earlier one.
pub record Calendar : Type 0 where
  pub year : ℕ → ℕ
  pub month : ℕ → ℕ
  pub month_range : (t : ℕ) → (1 ≤ month t) × (month t ≤ 12)
  pub first_of : ℕ → ℕ → ℕ
  pub before_iff :
      (t y m : ℕ)
      → 1 ≤ m
      → m ≤ 12
      → (t < first_of y m) ↔ ((year t < y) ⊎ (year t ≡ y) × (month t < m))

abbrev pub utc_day : ℕ
utc_day = 86400000000

module _ (calendar : Calendar) where
  -- `_next_month`, of the first instant of a month
  unfoldable pub next_month : ℕ → ℕ
  next_month start =
      if calendar.month start == 12
      then calendar.first_of (calendar.year start + 1) 1
      else calendar.first_of (calendar.year start) (calendar.month start + 1)

  -- `resolve_period`
  unfoldable pub resolve_period : Period → ℕ → Option ℕ × Option ℕ
  unfolding next_month
  resolve_period all now = (none, none)
  resolve_period daily now =
      let start = now / utc_day * utc_day in (some start, some (start + utc_day))
  resolve_period monthly now =
      let start = calendar.first_of (calendar.year now) (calendar.month now) in
      (some start, some (next_month start))

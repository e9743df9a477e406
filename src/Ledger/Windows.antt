-- ===== src/Ledger/Windows.antt =====
-- What the window of a period contains.
use mini_company.Prelude.{
  ℕ, ◌+◌, ◌/◌, ◌≡◌, ◌↔◌, inl, inr, refl, false, some, ◌==◌, Bool-cases, arith,
}
use mini_company.Ledger.Domain.{Period, daily, monthly, all}
use mini_company.Ledger.Calendar.{Calendar, utc_day, next_month, resolve_period}
use mini_company.Ledger.Repository.{is_outside}

-- Two instants lie in the same period of a kind.
abbrev pub SamePeriod : Calendar → Period → ℕ → ℕ → Type 0
SamePeriod calendar all now t = Unit
SamePeriod calendar daily now t = now / utc_day ≡ t / utc_day
SamePeriod calendar monthly now t =
    (calendar.year now ≡ calendar.year t) × (calendar.month now ≡ calendar.month t)

module _ (calendar : Calendar) where
  -- The month that an instant lies in begins in itself.
  first_of_month :
      (now : ℕ)
      → let start = calendar.first_of (calendar.year now) (calendar.month now) in
        (calendar.year start ≡ calendar.year now) × (calendar.month start ≡ calendar.month now)
  first_of_month now =
      let y = calendar.year now in
      let m = calendar.month now in
      let start = calendar.first_of y m in
      let y' = calendar.year start in
      let m' = calendar.month start in
      let r = calendar.month_range now in
      let r' = calendar.month_range start in
      let not_before = calendar.before_iff start y m r.0 r.1 in
      let begins = calendar.before_iff now y m r.0 r.1 in
      let beyond = calendar.before_iff now y' m' r'.0 r'.1 in
      let own = calendar.before_iff start y' m' r'.0 r'.1 in
      ground (arith, r, r', not_before, begins, beyond, own)

  in_month :
      (now t : ℕ)
      → let start = calendar.first_of (calendar.year now) (calendar.month now) in
        (is_outside (some start) (some (next_month calendar start)) t ≡ false)
        ↔ ((calendar.year now ≡ calendar.year t) × (calendar.month now ≡ calendar.month t))
  unfolding is_outside next_month
  in_month now t =
      let y = calendar.year now in
      let m = calendar.month now in
      let start = calendar.first_of y m in
      let r = calendar.month_range now in
      let r' = calendar.month_range t in
      let same = first_of_month now in
      let from = calendar.before_iff t y m r.0 r.1 in
      elim (Bool-cases (m == 12)) [
        | inl december ↦
            let until = calendar.before_iff t (y + 1) 1 (omega arith) (omega arith) in
            ground (arith, same, from, until, r')
        | inr other ↦
            let until = calendar.before_iff t y (m + 1) (omega arith) (ground arith) in
            ground (arith, same, from, until, r')
      ]

  -- Whatever the moment, the window that `resolve_period` gives contains exactly the instants of
  -- the same day for a daily period, of the same month of the same year for a monthly one, December
  -- included, and every instant for the period of all.
  pub resolve_period_lem :
      (period : Period) (now t : ℕ)
      → let (start, end) = resolve_period calendar period now in
        (is_outside start end t ≡ false) ↔ SamePeriod calendar period now t
  unfolding resolve_period is_outside
  resolve_period_lem all now t = (λ h. tt, λ h. refl)
  resolve_period_lem daily now t = (λ h. ground arith, λ h. ground arith)
  resolve_period_lem monthly now t = in_month now t

-- ===== src/Schedules/Due.antt =====
-- When a schedule is due.
use mini_company.Prelude.{
  ℕ, ◌+◌, ◌*◌, ◌/◌, ◌%◌, ◌≤◌, ◌<◌, ◌≡◌, ◌↔◌, true, Option, none, some, arith,
}
use mini_company.Schedules.Domain.{Schedule}
use mini_company.Schedules.Clock.{minute_length, day_length, Zone}
use mini_company.Schedules.Service.{is_due}

-- The last run, if there was one, was on an earlier day of the office's calendar.
abbrev pub NotRunOn : Zone → ℕ → Option ℕ → Type 0
NotRunOn zone day none = Unit
NotRunOn zone day (some last) = zone.to_wall last / day_length < day

-- The time of day lies in the half hour from the hour and minute of the schedule on.
abbrev pub IsTime : Schedule → ℕ → Type 0
IsTime schedule time =
    ((schedule.hour * 60 + schedule.minute) * minute_length ≤ time)
    × (time ≤ (schedule.hour * 60 + schedule.minute + 30) * minute_length)

-- A schedule is due at an instant exactly when the office's time of day then lies in the half
-- hour from its hour and minute on, both ends included, within one day, and it did not run on that
-- day of the office's calendar or later.
pub is_due_iff :
    (zone : Zone) (schedule : Schedule) (moment : ℕ)
    → let wall = zone.to_wall moment in
      (is_due zone schedule moment ≡ true) ↔ (
        IsTime schedule (wall % day_length)
        × NotRunOn zone (wall / day_length) schedule.last_run_at)
unfolding is_due
is_due_iff zone schedule moment = (λ h. ground arith, λ h. ground arith)

-- ===== src/Schedules/Clock.antt =====
-- Wall clocks. An instant is a number of microseconds in UTC, and its wall clock in the office's
-- time zone is the number of microseconds that the date and time of day there make. The time zone
-- database is not part of the program: it is a parameter.
use mini_company.Prelude.{ℕ, ◌+◌, ◌*◌, ◌/◌, ◌≤◌, ◌≡◌, Bool, true, false}

abbrev pub minute_length : ℕ
minute_length = 60000000

abbrev pub hour_length : ℕ
hour_length = 3600000000

abbrev pub day_length : ℕ
day_length = 86400000000

-- `moment.replace(hour=0, minute=0, second=0, microsecond=0)` on a wall clock
unfoldable pub start_of_day : ℕ → ℕ
start_of_day wall = wall / day_length * day_length

-- `moment.replace(hour=hour, minute=minute, second=0, microsecond=0)` on a wall clock
unfoldable pub at_time : ℕ → ℕ → ℕ → ℕ
unfolding start_of_day
at_time wall hour minute = start_of_day wall + hour * hour_length + minute * minute_length

-- `ZoneInfo(timezone)`: the wall clock of an instant, the fold of its `datetime`, which is true when
-- the zone shows that wall clock for the second time, and the instant of a wall clock with a fold.
-- When the zone shows midnight of a day once, both folds make one instant, which is not after the
-- instants of that day.
pub record Zone : Type 0 where
  pub to_wall : ℕ → ℕ
  pub fold : ℕ → Bool
  pub to_utc : ℕ → Bool → ℕ
  pub midnight_le :
      (t : ℕ)
      → to_utc (start_of_day (to_wall t)) true ≡ to_utc (start_of_day (to_wall t)) false
      → to_utc (start_of_day (to_wall t)) false ≤ t

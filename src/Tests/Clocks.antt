-- ===== src/Tests/Clocks.antt =====
-- Attempts to start a schedule, and what the theorem on them says.
use mini_company.Prelude.{
  ℕ, ◌+◌, ◌-◌, ◌*◌, ◌≤◌, ◌≡◌, refl, Bool, true, false, not, ◌&&◌, none, some, List, [], ◌∷◌, arith,
  leb, ltb, if◌then◌else◌,
}
use mini_company.Prelude.Text.{codes, strip, clean_title}
use mini_company.Prelude.Dict.{lookup, insert, values}
use mini_company.Tasks.Service.{assign_task, cancel_task}
use mini_company.Employees.Desk.{desk_for_slot, next_free_desk}
use mini_company.Employees.Domain.{role_llm_profile}
use mini_company.Employees.Service.{hire}
use mini_company.Schedules.Domain.{Schedule}
use mini_company.Schedules.Service.{start}
use mini_company.Schedules.Clock.{Zone, start_of_day, minute_length, hour_length, day_length}
use mini_company.Schedules.Claims.{Attempt, starts_of, starts_of-le_one}
use mini_company.Company.World.{World}
use mini_company.Samples.{runtime, seoul, hired}

clocks : Unit {0}
unfolding assign_task cancel_task hire strip lookup insert values desk_for_slot next_free_desk
    clean_title role_llm_profile start
clocks = tt

-- The schedule of 9:00 for the employee 0.
abbrev pub morning : Schedule
morning = record {
  id = some 5;
  employee_id = 0;
  kind = codes "brief";
  title = none;
  hour = 9;
  minute = 0;
  enabled = true;
  last_run_at = none;
  created_at = 0;
}

abbrev with_morning : World
with_morning = record hired { schedules = (5, morning) ∷ [] }

-- Nothing happens, and the task with the id 1 is cancelled.
abbrev nothing : World → World
nothing w = w

abbrev cancelling : World → World
cancelling w = (cancel_task runtime 1 w).1

cancelling-schedules : (w : World) → (cancelling w).schedules ≡ w.schedules
unfolding cancel_task
cancelling-schedules w = ground arith

-- Two attempts of one day, on the same copy; the task of the first is cancelled in between.
abbrev ticks : List Attempt
ticks =
    record { before = nothing; schedule = morning; moment = 10 * minute_length }
    ∷ record { before = cancelling; schedule = morning; moment = 20 * minute_length }
    ∷ []

starts_of-le_one_example : starts_of seoul runtime 5 ticks with_morning ≤ 1
starts_of-le_one_example =
    starts_of-le_one seoul runtime 5 0 ticks with_morning refl
      ((refl, λ w. refl), ((refl, cancelling-schedules), tt))

starts_once : starts_of seoul runtime 5 ticks with_morning ≡ 1
unfolding starts_of clocks start_of_day
starts_once = refl

-- A zone that is UTC until an hour after midnight of the day 1, and goes back to midnight then.
abbrev wall_of : ℕ → ℕ
wall_of t = if ltb t (day_length + hour_length) then t else t - hour_length

abbrev instant_of : ℕ → Bool → ℕ
instant_of wall second =
    if ltb wall day_length
    then wall
    else if ltb wall (day_length + hour_length) && not second
    then wall
    else wall + hour_length

autumn_midnight :
    (t : ℕ)
    → instant_of (start_of_day (wall_of t)) true ≡ instant_of (start_of_day (wall_of t)) false
    → instant_of (start_of_day (wall_of t)) false ≤ t
unfolding start_of_day
autumn_midnight t once = ground arith

abbrev autumn : Zone
autumn = record {
  to_wall = wall_of;
  fold = λ t. leb (day_length + hour_length) t && ltb t (day_length + 2 * hour_length);
  to_utc = instant_of;
  midnight_le = autumn_midnight;
}

-- Ten past the first midnight of that day, and five past the second, on a copy of before.
abbrev night : List Attempt
night =
    record { before = nothing; schedule = morning; moment = day_length + 10 * minute_length }
    ∷ record {
      before = cancelling;
      schedule = morning;
      moment = day_length + hour_length + 5 * minute_length;
    }
    ∷ []

starts_twice : starts_of autumn runtime 5 night with_morning ≡ 2
unfolding starts_of clocks start_of_day
starts_twice = refl

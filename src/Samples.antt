-- ===== src/Samples.antt =====
-- A small office to run the program on: a clock that ticks at every reading, object ids that are
-- counted, and a time zone nine hours ahead of UTC.
use mini_company.Prelude.{
  ℕ, ◌+◌, ◌-◌, ◌*◌, ◌/◌, ◌%◌, ◌≤◌, ◌<◌, ◌≡◌, ◌↔◌, ◌⊎◌, refl, false, Option, none, some, [], ◌∷◌,
  arith,
}
use mini_company.Prelude.Text.{Text, codes}
use mini_company.Tasks.Service.{assign_task, start_task, claim_next_task}
use mini_company.Employees.Domain.{collector}
use mini_company.Employees.Service.{hire}
use mini_company.Schedules.Clock.{Zone, start_of_day, hour_length}
use mini_company.Ledger.Calendar.{Calendar}
use mini_company.Company.World.{Runtime, World}
use mini_company.Company.Office.{opening, Reach, opens, next, hires, assigns, starts, claims}

abbrev pub parse_one : Text → Option ℕ
parse_one [] = none
parse_one (c ∷ []) = some c
parse_one (c ∷ d ∷ t) = none

abbrev pub runtime : Runtime
runtime = record {
  time = λ n. n + 1000;
  object_id = λ n. n;
  object_id_unique = λ i j e. e;
  show_id = λ i. i ∷ [];
  parse_id = parse_one;
  parse-show = λ i. refl;
  show_seconds = λ s. codes "900";
}

pub seoul_midnight :
    (t : ℕ)
    → start_of_day (t + 9 * hour_length) - 9 * hour_length
      ≡ start_of_day (t + 9 * hour_length) - 9 * hour_length
    → start_of_day (t + 9 * hour_length) - 9 * hour_length ≤ t
unfolding start_of_day
seoul_midnight t once = omega arith

abbrev pub seoul : Zone
seoul = record {
  to_wall = λ t. t + 9 * hour_length;
  fold = λ t. false;
  to_utc = λ wall f. wall - 9 * hour_length;
  midnight_le = seoul_midnight;
}

-- A calendar in which every month has thirty days.
abbrev pub month_length : ℕ
month_length = 2592000000000

pub month_in_year : (t : ℕ) → (1 ≤ t / month_length % 12 + 1) × (t / month_length % 12 + 1 ≤ 12)
month_in_year t = (omega arith, omega arith)

pub before_month :
    (t y m : ℕ)
    → 1 ≤ m
    → m ≤ 12
    → (t < (y * 12 + (m - 1)) * month_length) ↔ (
        (t / month_length / 12 < y) ⊎ (t / month_length / 12 ≡ y) × (t / month_length % 12 + 1 < m))
before_month t y m low high = (λ h. ground arith, λ h. ground arith)

abbrev pub even_months : Calendar
even_months = record {
  year = λ t. t / month_length / 12;
  month = λ t. t / month_length % 12 + 1;
  month_range = month_in_year;
  first_of = λ y m. (y * 12 + (m - 1)) * month_length;
  before_iff = before_month;
}

-- One employee, with the id 0.
abbrev pub hired : World
hired = (hire runtime (codes "Mina") collector opening).1

-- It has a QUEUED task, with the id 1.
abbrev pub assigned : World
assigned = (assign_task runtime 0 (codes "research") (some (codes " Survey ")) hired).1

-- It started another task, with the id 2, on its own.
abbrev pub busy : World
busy = (start_task runtime 0 (codes "chat") none assigned).1

-- Its QUEUED task is RUNNING.
abbrev pub claimed : World
claimed = (claim_next_task runtime assigned).1

pub hired-reached : Reach seoul runtime hired
hired-reached = next opens (hires (codes "Mina") collector)

pub assigned-reached : Reach seoul runtime assigned
assigned-reached = next hired-reached (assigns 0 (codes "research") (some (codes " Survey ")))

pub busy-reached : Reach seoul runtime busy
busy-reached = next assigned-reached (starts 0 (codes "chat") none)

pub claimed-reached : Reach seoul runtime claimed
claimed-reached = next assigned-reached claims

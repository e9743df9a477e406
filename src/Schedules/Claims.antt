-- ===== src/Schedules/Claims.antt =====
-- How often a schedule starts on a day, however many ticks and replicas try.
use mini_company.Prelude.{
  ℕ, suc, ◌*◌, ◌/◌, ◌≤◌, ◌≡◌, inl, inr, refl, Bool, true, false, Option, none, some, List, [], ◌∷◌,
  All, if◌then◌else◌, points_to, Option-cases, Bool-cases, ◌&&◌, ◌||◌, ap, sym, subst, ◌∙◌, arith,
}
use mini_company.Prelude.Text.{Text}
use mini_company.Prelude.Dict.{Dict, lookup, lookup-insert}
use mini_company.Schedules.Domain.{Schedule}
use mini_company.Schedules.Clock.{Zone, start_of_day, day_length}
use mini_company.Schedules.Repository.{has_run_since, put_schedule}
use mini_company.Schedules.Service.{start, midnight}
use mini_company.Tasks.Service.{assign_task}
use mini_company.Company.World.{Runtime, World, Result, ok, err}

-- The schedule at an id has run since an instant, or is not stored.
abbrev has_run : ℕ → ℕ → Dict Schedule → Bool
has_run i since schedules = elim (lookup i schedules) [
  | none ↦ true
  | some s ↦ has_run_since since s.last_run_at
]

or_true : (a : Bool) {b : Bool} → b ≡ true → a || b ≡ true
or_true a h = ground arith

true_or : {a : Bool} (b : Bool) → a ≡ true → a || b ≡ true
true_or b h = ground arith

assign_task-schedules :
    (runtime : Runtime) (employee_id : ℕ) (kind : Text) (title : Option Text) (w : World)
    → (assign_task runtime employee_id kind title w).1.schedules ≡ w.schedules
unfolding assign_task
assign_task-schedules runtime employee_id kind title w = ground arith

-- What a tick of some replica makes of a schedule that it has read before, so that its copy may be
-- out of date, and what other calls do to the stores before it.
pub record Attempt : Type 0 where
  pub before : World → World
  pub schedule : Schedule
  pub moment : ℕ

module _ (zone : Zone) (runtime : Runtime) where
  abbrev started : Result Bool → Bool
  started (ok b) = b
  started (err e) = false

  -- How often a row of attempts starts the schedule with a given id.
  unfoldable pub starts_of : ℕ → List Attempt → World → ℕ
  starts_of i [] w = 0
  starts_of i (attempt ∷ attempts) w =
      let (r, w') = start zone runtime attempt.schedule attempt.moment (attempt.before w) in
      let rest = starts_of i attempts w' in
      if started r && points_to attempt.schedule.id i then suc rest else rest

  -- The attempt is made on a day, and the calls before it leave the schedules.
  abbrev pub IsOnDay : ℕ → Attempt → Type 0
  IsOnDay day attempt =
      (zone.to_wall attempt.moment / day_length ≡ day)
      × ((w : World) → (attempt.before w).schedules ≡ w.schedules)

  -- The zone shows midnight of the day once: it makes one instant with either fold.
  abbrev pub HasOneMidnight : ℕ → Type 0
  HasOneMidnight day = zone.to_utc (day * day_length) true ≡ zone.to_utc (day * day_length) false

  one_instant :
      (wall : ℕ) (f : Bool)
      → zone.to_utc wall true ≡ zone.to_utc wall false
      → zone.to_utc wall f ≡ zone.to_utc wall false
  one_instant wall true once = once
  one_instant wall false once = refl

  midnight_of_day :
      (day moment : ℕ)
      → HasOneMidnight day
      → zone.to_wall moment / day_length ≡ day
      → midnight zone moment ≡ zone.to_utc (day * day_length) false
  unfolding start_of_day
  midnight_of_day day moment once h =
      ap (λ n. zone.to_utc (n * day_length) (zone.fold moment)) h
      ∙ one_instant (day * day_length) (zone.fold moment) once

  midnight_not_after :
      (day moment : ℕ)
      → HasOneMidnight day
      → zone.to_wall moment / day_length ≡ day
      → midnight zone moment ≤ moment
  unfolding start_of_day
  midnight_not_after day moment once h =
      let same : start_of_day (zone.to_wall moment) ≡ day * day_length =
        ap (λ n. n * day_length) h in
      subst (λ n. n ≤ moment)
        (ap (λ n. zone.to_utc n false) same ∙ sym (midnight_of_day day moment once h))
        (zone.midnight_le moment (rw same once))

  -- An attempt never makes a schedule run less lately, and one for it leaves it run that day.
  start-has_run :
      (i : ℕ) (s : Schedule) (moment : ℕ) (w : World)
      → midnight zone moment ≤ moment
      → has_run i (midnight zone moment) w.schedules || points_to s.id i ≡ true
      → has_run i (midnight zone moment) (start zone runtime s moment w).1.schedules ≡ true
  unfolding start
  start-has_run i s moment w early h = elim (Option-cases s.id) [
    | inl unsaved ↦ ground arith
    | inr (j, named) ↦ elim (Option-cases (lookup j w.schedules)) [
      | inl absent ↦ ground arith
      | inr (t, found) ↦ ground (
        arith,
        lookup-insert j i (record t { last_run_at = some moment }) w.schedules,
        assign_task-schedules runtime s.employee_id s.kind s.title
            (put_schedule j (record t { last_run_at = some moment }) w),
      )
    ]
  ]

  start_blocked :
      (i : ℕ) (s : Schedule) (moment : ℕ) (w : World)
      → has_run i (midnight zone moment) w.schedules ≡ true
      → s.id ≡ some i
      → start zone runtime s moment w ≡ (ok false, w)
  unfolding start
  start_blocked i s moment w h named = ground arith

  -- The same of an attempt on a day, with midnight as one instant of that day.
  attempt-has_run :
      (i day : ℕ) (a : Attempt) (w : World)
      → HasOneMidnight day
      → IsOnDay day a
      → has_run i (zone.to_utc (day * day_length) false) w.schedules || points_to a.schedule.id i
        ≡ true
      → has_run i
          (zone.to_utc (day * day_length) false)
          (start zone runtime a.schedule a.moment (a.before w)).1.schedules
        ≡ true
  attempt-has_run i day a w once (today, kept) h =
      let same = midnight_of_day day a.moment once today in
      rw (← same) (
        start-has_run i a.schedule a.moment (a.before w)
          (midnight_not_after day a.moment once today) (rw (same, kept w) h))

  attempt_blocked :
      (i day : ℕ) (a : Attempt) (w : World)
      → HasOneMidnight day
      → IsOnDay day a
      → has_run i (zone.to_utc (day * day_length) false) w.schedules ≡ true
      → a.schedule.id ≡ some i
      → start zone runtime a.schedule a.moment (a.before w) ≡ (ok false, a.before w)
  attempt_blocked i day a w once (today, kept) h named =
      start_blocked i a.schedule a.moment (a.before w)
        (rw (midnight_of_day day a.moment once today, kept w) h) named

  starts_of_run :
      (i day : ℕ) (attempts : List Attempt) (w : World)
      → HasOneMidnight day
      → All (IsOnDay day) attempts
      → has_run i (zone.to_utc (day * day_length) false) w.schedules ≡ true
      → starts_of i attempts w ≡ 0
  unfolding starts_of
  starts_of_run i day [] w once days h = refl
  starts_of_run i day (a ∷ attempts) w once (today, days) h =
      let w' = (start zone runtime a.schedule a.moment (a.before w)).1 in
      ground (
        arith,
        attempt_blocked i day a w once today h,
        starts_of_run i day attempts w' once days
            (attempt-has_run i day a w once today (true_or (points_to a.schedule.id i) h)),
      )

  -- On a day whose midnight the office's time zone shows once, however many attempts are made, by
  -- any replicas, in any order and on copies of the schedules however old, and whatever calls that
  -- leave the schedules run between them, at most one attempt starts a given schedule.
  pub starts_of-le_one :
      (i day : ℕ) (attempts : List Attempt) (w : World)
      → HasOneMidnight day
      → All (IsOnDay day) attempts
      → starts_of i attempts w ≤ 1
  unfolding starts_of
  starts_of-le_one i day [] w once days = omega arith
  starts_of-le_one i day (a ∷ attempts) w once (today, days) =
      let w' = (start zone runtime a.schedule a.moment (a.before w)).1 in
      let midnight_ = zone.to_utc (day * day_length) false in
      elim (Bool-cases (points_to a.schedule.id i)) [
        | inl its ↦ ground (
          arith,
          starts_of_run i day attempts w' once days (
              attempt-has_run i day a w once today (or_true (has_run i midnight_ w.schedules) its)),
        )
        | inr other ↦ ground (arith, starts_of-le_one i day attempts w' once days)
      ]

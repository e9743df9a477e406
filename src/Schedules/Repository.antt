-- ===== src/Schedules/Repository.antt =====
-- The repository of schedules, as backend/tests/fakes/schedule_repository.py implements its
-- protocol.
use mini_company.Prelude.{
  ℕ, Bool, true, false, Option, none, some, List, keep, sorted_by, is_some, ltb, leb, ◌==◌,
  if◌then◌else◌, ◌&&◌, ◌||◌,
}
use mini_company.Prelude.Dict.{lookup, insert, remove, values}
use mini_company.Schedules.Domain.{Schedule}
use mini_company.Company.World.{
  Runtime, World, Action, ok, pure, gets, modify, ◌>>=◌, ◌>>◌, draw_id,
}

-- `get`
unfoldable pub get_schedule : ℕ → Action (Option Schedule)
get_schedule schedule_id = gets (λ w. lookup schedule_id w.schedules)

-- `list_enabled`
unfoldable pub list_enabled : Action (List Schedule)
list_enabled = gets (λ w. keep (λ s. s.enabled) (values w.schedules))

-- `list_all`, by hour and minute
unfoldable pub list_all : Action (List Schedule)
list_all = gets (λ w.
    sorted_by (λ s t. ltb s.hour t.hour || (s.hour == t.hour && leb s.minute t.minute))
      (values w.schedules))

-- `delete`: whether there was one.
unfoldable pub delete_schedule : ℕ → Action Bool
delete_schedule i w =
    (ok (is_some (lookup i w.schedules)), record w { schedules = remove i w.schedules })

abbrev pub put_schedule : ℕ → Schedule → World → World
put_schedule i schedule w = record w { schedules = insert i schedule w.schedules }

-- `schedule.last_run_at is not None and schedule.last_run_at >= not_run_since`
abbrev pub has_run_since : ℕ → Option ℕ → Bool
has_run_since since none = false
has_run_since since (some last) = leb since last

-- `claim_run`: one step, which no other claim can come between.
unfoldable pub claim_run : ℕ → ℕ → ℕ → Action Bool
claim_run schedule_id ran_at not_run_since = do
  found ← gets (λ w. lookup schedule_id w.schedules)
  elim found [
    | none ↦ pure false
    | some schedule ↦ if has_run_since not_run_since schedule.last_run_at then pure false else (do
      modify (put_schedule schedule_id (record schedule { last_run_at = some ran_at }))
      pure true)
  ]

-- `save`: a schedule without an id gets one.
unfoldable pub save_schedule : Runtime → Schedule → Action Schedule
save_schedule runtime schedule = elim schedule.id [
  | none ↦ do
    i ← draw_id runtime
    let stored = record schedule { id = some i }
    modify (put_schedule i stored)
    pure stored
  | some i ↦ do modify (put_schedule i schedule); pure schedule
]

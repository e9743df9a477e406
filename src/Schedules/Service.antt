-- ===== src/Schedules/Service.antt =====
-- backend/src/schedules/service.py: `class ScheduleService`, one action for each method.
use mini_company.Prelude.{
  ℕ, ◌+◌, ◌-◌, ◌*◌, Bool, true, false, not, Option, none, some, List, [], ◌∷◌, ltb, if◌then◌else◌,
}
use mini_company.Prelude.Text.{Text, clean_title}
use mini_company.Schedules.Domain.{Schedule}
use mini_company.Schedules.Clock.{minute_length, start_of_day, at_time, Zone}
use mini_company.Schedules.Repository.{
  get_schedule, list_enabled, list_all, delete_schedule, claim_run, save_schedule,
}
use mini_company.Employees.Repository.{get_employee}
use mini_company.Tasks.Responses.{for_each}
use mini_company.Tasks.Service.{assign_task}
use mini_company.Company.World.{
  Runtime, Action, ok, err, is_ok, pure, or_raise, raise_if, now, ◌>>=◌, ◌>>◌, employee_not_found,
  schedule_not_found, value_error, assertion_error,
}

-- backend/src/schedules/schemas.py: `ScheduleResponse`
pub record ScheduleResponse : Type 0 where
  pub id : ℕ
  pub employee_id : ℕ
  pub kind : Text
  pub title : Option Text
  pub hour : ℕ
  pub minute : ℕ
  pub enabled : Bool
  pub last_run_at : Option ℕ
  pub created_at : ℕ

-- `ScheduleResponse.from_domain`
unfoldable pub schedule_response : Schedule → Action ScheduleResponse
schedule_response schedule = do
  i ← or_raise schedule.id value_error
  pure (record {
    id = i;
    employee_id = schedule.employee_id;
    kind = schedule.kind;
    title = schedule.title;
    hour = schedule.hour;
    minute = schedule.minute;
    enabled = schedule.enabled;
    last_run_at = schedule.last_run_at;
    created_at = schedule.created_at;
  })

-- `_CATCH_UP_WINDOW`
abbrev pub catch_up_window : ℕ
catch_up_window = 30 * minute_length

-- `list_schedules`
unfoldable pub list_schedules : Action (List ScheduleResponse)
unfolding list_all for_each schedule_response
list_schedules = do schedules ← list_all; for_each schedule_response schedules

-- `delete`
unfoldable pub delete : ℕ → Action Unit
unfolding delete_schedule
delete schedule_id = do
  deleted ← delete_schedule schedule_id
  raise_if (not deleted) schedule_not_found

module _ (zone : Zone) where
  -- `_is_due`, at an instant
  unfoldable pub is_due : Schedule → ℕ → Bool
  unfolding start_of_day at_time
  is_due schedule moment =
      let wall = zone.to_wall moment in
      let scheduled = at_time wall schedule.hour schedule.minute in
      if ltb wall scheduled
      then false
      else if ltb catch_up_window (wall - scheduled)
      then false
      else (elim schedule.last_run_at [
        | none ↦ true
        | some last ↦ ltb (zone.to_wall last) (start_of_day wall)
      ])

  -- Midnight of an instant's day, as an instant: `_start_of_day(moment).astimezone(UTC)`, which
  -- keeps the fold of the moment.
  abbrev pub midnight : ℕ → ℕ
  midnight moment = zone.to_utc (start_of_day (zone.to_wall moment)) (zone.fold moment)

  module _ (runtime : Runtime) where
    -- `_start`
    unfoldable pub start : Schedule → ℕ → Action Bool
    unfolding claim_run
    start schedule moment = do
      i ← or_raise schedule.id assertion_error
      claimed ← claim_run i moment (midnight moment)
      if claimed
          then (λ w.
              let (r, w') =
                assign_task runtime schedule.employee_id schedule.kind schedule.title w in
              (ok (is_ok r), w'))
          else pure false

    -- The loop of `run_due`
    unfoldable pub run_each : ℕ → List Schedule → ℕ → Action ℕ
    run_each moment [] created w = (ok created, w)
    run_each moment (schedule ∷ schedules) created w =
        let skipped = run_each moment schedules created w in
        if is_due schedule moment
        then (let (r, w') = start schedule moment w in
            elim r [
              | ok started ↦ run_each moment schedules (if started then created + 1 else created) w'
              | err e ↦ (err e, w')
            ])
        else skipped

    -- `now or datetime.now(UTC)`
    abbrev pub or_now : Option ℕ → Action ℕ
    or_now none = now runtime
    or_now (some moment) = pure moment

    -- `run_due`
    unfoldable pub run_due : Option ℕ → Action ℕ
    unfolding run_each list_enabled
    run_due given = do moment ← or_now given; schedules ← list_enabled; run_each moment schedules 0

module _ (runtime : Runtime) where
  -- `create`
  unfoldable pub create : ℕ → Text → ℕ → ℕ → Option Text → Action ScheduleResponse
  unfolding get_employee save_schedule schedule_response
  create employee_id kind hour minute title = do
    or_raise (← get_employee employee_id) employee_not_found
    created_at ← now runtime
    saved ← save_schedule runtime (record {
      id = none;
      employee_id = employee_id;
      kind = kind;
      title = clean_title title;
      hour = hour;
      minute = minute;
      enabled = true;
      last_run_at = none;
      created_at = created_at;
    })
    schedule_response saved

  -- `set_enabled`
  unfoldable pub set_enabled : ℕ → Bool → Action ScheduleResponse
  unfolding get_schedule save_schedule schedule_response
  set_enabled schedule_id enabled = do
    schedule ← or_raise (← get_schedule schedule_id) schedule_not_found
    updated ← save_schedule runtime (record schedule { enabled = enabled })
    schedule_response updated

-- ===== src/Tasks/Behaviour/Paging.antt =====
-- `list_activities`, page after page.
pub mod Order
pub mod Slices
pub mod Complete
use mini_company.Prelude.{
  ℕ, zero, suc, ◌+◌, ◌-◌, ◌≤◌, ◌<◌, ◌≡◌, ◌≢◌, refl, ap, sym, subst, ◌∙◌, inl, inr, Bool, true,
  false, not, Option, none, some, List, [], ◌∷◌, ◌++◌, map, length, take, drop, keep, ltb, leb,
  ◌==◌, is_some, if◌then◌else◌, Bool-cases, Option-cases, All, arith,
}
use mini_company.Prelude.Text.{Text}
use mini_company.Prelude.Dict.{Dict, lookup, values, IsKeyed}
use mini_company.Tasks.Domain.{Activity}
use mini_company.Tasks.Repository.{recent_first}
use mini_company.Tasks.Responses.{ActivityResponse, CursorPage}
use mini_company.Tasks.Service.{list_activities}
use mini_company.Company.World.{Runtime, World, Action, pure, ◌>>=◌, ok}

-- A reader that follows the cursors, for a number of pages at most.
unfoldable pub read_pages : Runtime → ℕ → ℕ → ℕ → Option Text → Action (List ActivityResponse)
read_pages runtime zero employee_id limit cursor = pure []
read_pages runtime (suc pages) employee_id limit cursor = do
  page ← list_activities runtime employee_id limit cursor
  elim page.next_cursor [
    | none ↦ pure page.items
    | some next ↦ do
      rest ← read_pages runtime pages employee_id limit (some next)
      pure (page.items ++ rest)
  ]

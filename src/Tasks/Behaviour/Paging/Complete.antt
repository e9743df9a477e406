-- ===== src/Tasks/Behaviour/Paging/Complete.antt =====
-- The pages show every activity once.
use mini_company.Prelude.{
  ℕ, zero, suc, ◌+◌, ◌*◌, ◌≤◌, ◌<◌, ◌≡◌, refl, ap, sym, subst, ◌∙◌, inl, inr, Bool, true, Option,
  none, some, List, [], ◌∷◌, ◌++◌, append_assoc, map, map-append, length, length-drop, take, drop,
  take-append-drop, keep, ltb, ◌==◌, is_some, Bool-cases, All, arith,
}
use mini_company.Prelude.Text.{Text}
use mini_company.Prelude.Dict.{lookup, values, IsKeyed, values-All}
use mini_company.Tasks.Domain.{Activity}
use mini_company.Tasks.Responses.{ActivityResponse, activity_response, for_each, CursorPage}
use mini_company.Tasks.Service.{list_activities, next_cursor, cursor_of, last, resolve_cursor}
use mini_company.Tasks.Behaviour.Paging.{read_pages}
use mini_company.Tasks.Behaviour.Paging.Order.{
  IsDescending, recent_first-IsDescending, values-AreDistinct, keep-AreDistinct, keep-older,
  All-middle, recent_first-All,
}
use mini_company.Tasks.Repository.{is_before, list_by_employee, get_activity}
use mini_company.Employees.Domain.{Employee}
use mini_company.Employees.Repository.{get_employee}
use mini_company.Tasks.Behaviour.Paging.Slices.{
  shown, activities_of, take-take, length-take_more, split_last, for_each-shown, All-suffix,
  All-take, take_all,
}
use mini_company.Company.World.{Runtime, World, ok}

module _ (runtime : Runtime) (employee_id : ℕ) (w : World) where
  -- An activity of the employee, stored under its id.
  abbrev IsFound : Activity → Type 0
  IsFound a =
      (i : ℕ) × (a.id ≡ some i)
      × (lookup i w.activities ≡ some a)
      × ((a.employee_id == employee_id) ≡ true)

  -- Where a cursor stands in the list, and what is left behind it.
  data IsAt : Option Text → List Activity → Type 0 where
    start : {rest : List Activity} → rest ≡ activities_of employee_id w → IsAt none rest
    past :
        {cursor : Text} {rest : List Activity} (front : List Activity) (a : Activity)
        → cursor ≡ cursor_of runtime a
        → activities_of employee_id w ≡ front ++ a ∷ rest
        → IsAt (some cursor) rest

  named-All : (xs : List Activity) → All IsFound xs → All (λ (a : Activity). is_some a.id ≡ true) xs
  named-All [] h = tt
  named-All (x ∷ xs) ((i, named, _, _), h) = (rw named, named-All xs h)

  -- What is left is part of the list.
  rest-IsFound :
      {cursor : Option Text} (rest : List Activity)
      → All IsFound (activities_of employee_id w)
      → IsAt cursor rest
      → All IsFound rest
  rest-IsFound rest h (start whole) = rw whole h
  rest-IsFound rest h (past front a at split) =
      (All-suffix IsFound front (a ∷ rest) (rw (← split) h)).1

  items_shown :
      (limit : ℕ) (rest : List Activity)
      → All IsFound rest
      → for_each activity_response (take limit (take (limit + 1) rest)) w
        ≡ (ok (map shown (take limit rest)), w)
  items_shown limit rest h = rw (take-take limit (limit + 1) rest (omega arith)) (
      for_each-shown (take limit rest) w
        (named-All (take limit rest) (All-take IsFound limit rest h)))

  -- The query behind a cursor.
  older_than :
      (front : List Activity) (a : Activity) (rest : List Activity) (i : ℕ)
      → IsDescending (activities_of employee_id w)
      → activities_of employee_id w ≡ front ++ a ∷ rest
      → a.id ≡ some i
      → keep
          (λ (x : Activity). is_before x.occurred_at x.id a.occurred_at (some i))
          (activities_of employee_id w)
        ≡ rest
  older_than front a rest i falls split named =
      subst
        (λ o.
          keep (λ (x : Activity). is_before x.occurred_at x.id a.occurred_at o)
            (activities_of employee_id w)
          ≡ rest)
        named (rw split (keep-older front a rest (subst IsDescending split falls)))

  -- The page that a query makes, once the cursor is read.
  page_of : ℕ → List Activity → CursorPage ActivityResponse
  page_of limit rest = record {
    items = map shown (take limit rest);
    next_cursor = next_cursor runtime limit (take (limit + 1) rest);
  }

  cursor_read :
      (i : ℕ) (a : Activity)
      → a.id ≡ some i
      → lookup i w.activities ≡ some a
      → (a.employee_id == employee_id) ≡ true
      → resolve_cursor runtime employee_id (some (cursor_of runtime a)) w ≡ (ok (some a), w)
  unfolding resolve_cursor get_activity
  cursor_read i a named held own =
      let read : runtime.parse_id (cursor_of runtime a) ≡ some i =
        ground (arith, named, runtime.parse-show i) in
      simp (read, held, own) refl

  queried :
      (limit i : ℕ) (front : List Activity) (a : Activity) (rest : List Activity)
      → IsDescending (activities_of employee_id w)
      → activities_of employee_id w ≡ front ++ a ∷ rest
      → a.id ≡ some i
      → list_by_employee employee_id limit (some a) w ≡ (ok (take limit rest), w)
  unfolding list_by_employee
  queried limit i front a rest falls split named =
      simp (named, older_than front a rest i falls split named) refl

  first_page :
      (e : Employee) (limit : ℕ) (rest : List Activity)
      → lookup employee_id w.employees ≡ some e
      → All IsFound rest
      → rest ≡ activities_of employee_id w
      → list_activities runtime employee_id limit none w ≡ (ok (page_of limit rest), w)
  unfolding list_activities resolve_cursor get_employee list_by_employee page_of
  first_page e limit rest known found whole =
      let items = items_shown limit rest found in ground (arith, known, whole, items)

  later_page :
      (e : Employee) (limit : ℕ) (front : List Activity) (a : Activity) (rest : List Activity)
      → lookup employee_id w.employees ≡ some e
      → All IsFound (activities_of employee_id w)
      → IsDescending (activities_of employee_id w)
      → activities_of employee_id w ≡ front ++ a ∷ rest
      → list_activities runtime employee_id limit (some (cursor_of runtime a)) w
        ≡ (ok (page_of limit rest), w)
  unfolding list_activities get_employee page_of
  later_page e limit front a rest known all_found falls split =
      let (i, named, held, own) =
        All-middle IsFound front a rest (subst (All IsFound) split all_found) in
      let asked = queried (limit + 1) i front a rest falls split named in
      let read = cursor_read i a named held own in
      let items =
        items_shown limit rest
          (All-suffix IsFound front (a ∷ rest) (subst (All IsFound) split all_found)).1 in
      ground (arith, known, read, asked, items)

  page :
      (e : Employee) (limit : ℕ) (cursor : Option Text) (rest : List Activity)
      → lookup employee_id w.employees ≡ some e
      → All IsFound (activities_of employee_id w)
      → IsDescending (activities_of employee_id w)
      → IsAt cursor rest
      → list_activities runtime employee_id limit cursor w ≡ (ok (page_of limit rest), w)
  page e limit _ rest known found falls (start whole) =
      first_page e limit rest known (subst (All IsFound) (sym whole) found) whole
  page e limit _ rest known found falls (past front a at split) =
      rw at (later_page e limit front a rest known found falls split)

  last_page :
      (limit : ℕ) (rest : List Activity)
      → length rest ≤ limit
      → next_cursor runtime limit (take (limit + 1) rest) ≡ none
  unfolding next_cursor
  last_page limit rest h = ground (arith, length-take_more limit rest)

  more_pages :
      (limit : ℕ) (rest : List Activity) (a : Activity)
      → limit < length rest
      → last (take limit rest) ≡ some a
      → next_cursor runtime limit (take (limit + 1) rest) ≡ some (cursor_of runtime a)
  unfolding next_cursor
  more_pages limit rest a h ends =
      ground
        (arith, length-take_more limit rest, take-take limit (limit + 1) rest (omega arith), ends)

  -- The cursor that a page ends with stands where the page ends.
  behind :
      {cursor : Option Text} (rest front : List Activity) (a : Activity) (left : List Activity)
      → IsAt cursor rest
      → rest ≡ front ++ a ∷ left
      → IsAt (some (cursor_of runtime a)) left
  behind rest front a left (start whole) split = past front a refl (sym whole ∙ split)
  behind rest front a left (past before b at whole) split =
      past (before ++ b ∷ front) a refl (
        whole
        ∙ ap (λ xs. before ++ b ∷ xs) split
        ∙ sym (append_assoc before (b ∷ front) (a ∷ left)))

  rest_read :
      (e : Employee) (n pages : ℕ) (cursor : Option Text) (rest : List Activity)
      → lookup employee_id w.employees ≡ some e
      → All IsFound (activities_of employee_id w)
      → IsDescending (activities_of employee_id w)
      → IsAt cursor rest
      → length rest ≤ pages * suc n
      → read_pages runtime pages employee_id (suc n) cursor w ≡ (ok (map shown rest), w)
  unfolding read_pages page_of
  rest_read e n zero cursor [] known found falls at h = refl
  rest_read e n zero cursor (a ∷ rest) known found falls at h = absurd (grind arith)
  rest_read e n (suc pages) cursor rest known found falls at h =
      let listed = page e (suc n) cursor rest known found falls at in
      elim (Bool-cases (ltb (suc n) (length rest))) [
        | inr short ↦
            let over = last_page (suc n) rest (ground (arith, short)) in
            let all = take_all (suc n) rest (ground (arith, short)) in
            ground (arith, listed, over, all)
        | inl long ↦
            let (front, a, split, ends) = split_last n rest (ground (arith, long)) in
            let more = more_pages (suc n) rest a (ground (arith, long)) ends in
            let left = drop (suc n) rest in
            let read =
              rest_read e n pages (some (cursor_of runtime a)) left known found falls
                (behind rest front a left at split) (grind (arith, length-drop (suc n) rest)) in
            let whole =
              sym (map-append shown (take (suc n) rest) left)
              ∙ ap (map shown) (take-append-drop (suc n) rest) in
            ground (arith, listed, more, read, whole)
      ]

  keep-IsFound :
      (xs : List Activity)
      → All (λ (a : Activity). (i : ℕ) × (a.id ≡ some i) × (lookup i w.activities ≡ some a)) xs
      → All IsFound (keep (λ (a : Activity). a.employee_id == employee_id) xs)
  keep-IsFound [] h = tt
  keep-IsFound (x ∷ xs) ((i, named, held), h) = elim (Bool-cases (x.employee_id == employee_id)) [
    | inl own ↦ rw own ((i, named, held, own), keep-IsFound xs h)
    | inr other ↦ rw other (keep-IsFound xs h)
  ]

  -- A reader that follows the cursors of a known employee gets every activity of the employee
  -- once, latest first, when the activities are stored under their ids, a page holds at least one
  -- activity and the pages read hold as many as there are.
  pub read_pages_lem :
      (e : Employee) (limit pages : ℕ)
      → lookup employee_id w.employees ≡ some e
      → IsKeyed w.activities
      → ((i : ℕ) (a : Activity) → lookup i w.activities ≡ some a → a.id ≡ some i)
      → 0 < limit
      → length (activities_of employee_id w) ≤ pages * limit
      → read_pages runtime pages employee_id limit none w
        ≡ (ok (map shown (activities_of employee_id w)), w)
  read_pages_lem e zero pages known keyed named positive enough = absurd (omega arith)
  read_pages_lem e (suc n) pages known keyed named positive enough =
      let own : Activity → Bool = λ a. a.employee_id == employee_id in
      let stored = values w.activities in
      let found = keep-IsFound stored (
        values-All (λ (a : Activity). (i : ℕ) × (a.id ≡ some i) × (lookup i w.activities ≡ some a))
          w.activities keyed (λ i a held. (i, named i a held, held))) in
      let falls =
        recent_first-IsDescending (keep own stored)
          (keep-AreDistinct own stored (values-AreDistinct w.activities keyed named)) in
      rest_read e n pages none (activities_of employee_id w) known
        (recent_first-All IsFound (keep own stored) found) falls (start refl) enough

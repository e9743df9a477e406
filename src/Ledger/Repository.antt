-- ===== src/Ledger/Repository.antt =====
-- The repository of the ledger, as backend/tests/fakes/ledger_repository.py implements its protocol.
use mini_company.Prelude.{
  ℕ, Bool, false, ◌||◌, Option, none, some, List, [], ◌∷◌, ltb, leb, if◌then◌else◌, find_first,
  points_to,
}
use mini_company.Prelude.Int.{ℤ, pos, ◌+ℤ◌}
use mini_company.Prelude.Dict.{lookup, insert, values}
use mini_company.Ledger.Domain.{LedgerCategory, category_eq, LedgerEntry}
use mini_company.Company.World.{Runtime, Action, pure, gets, modify, ◌>>=◌, ◌>>◌, draw_id}

-- `get`
unfoldable pub get_entry : ℕ → Action (Option LedgerEntry)
get_entry entry_id = gets (λ w. lookup entry_id w.entries)

-- `append`: an entry without an id gets one.
unfoldable pub append_entry : Runtime → LedgerEntry → Action LedgerEntry
append_entry runtime entry = elim entry.id [
  | none ↦ do
    i ← draw_id runtime
    let stored = record entry { id = some i }
    modify (λ w. record w { entries = insert i stored w.entries })
    pure stored
  | some i ↦ do modify (λ w. record w { entries = insert i entry w.entries }); pure entry
]

-- `find_reversal_of`
unfoldable pub find_reversal_of : ℕ → Action (Option LedgerEntry)
find_reversal_of entry_id =
    gets (λ w. find_first (λ entry. points_to entry.reverses_id entry_id) (values w.entries))

-- The dict of the sums, which has no key for a category without an entry.
abbrev pub Totals : Type 0
Totals = LedgerCategory → Option ℤ

-- `totals.get(category, Decimal(0))`
abbrev pub or_zero : Option ℤ → ℤ
or_zero none = pos 0
or_zero (some a) = a

-- `entry.occurred_at < start or entry.occurred_at >= end`, where there is a start or an end.
unfoldable pub is_outside : Option ℕ → Option ℕ → ℕ → Bool
is_outside start end at =
    (elim start [ none ↦ false | some s ↦ ltb at s ])
    || (elim end [ none ↦ false | some e ↦ leb e at ])

-- `totals[entry.category] = totals.get(entry.category, Decimal(0)) + entry.amount`
unfoldable pub count_in : LedgerEntry → Totals → Totals
count_in entry totals category =
    if category_eq entry.category category
    then some (or_zero (totals category) +ℤ entry.amount)
    else totals category

-- The loop of `sum_by_category`.
unfoldable pub sum_each : Option ℕ → Option ℕ → List LedgerEntry → Totals → Totals
unfolding is_outside count_in
sum_each start end [] totals = totals
sum_each start end (entry ∷ entries) totals =
    sum_each start end entries
      (if is_outside start end entry.occurred_at then totals else count_in entry totals)

-- `sum_by_category`
unfoldable pub sum_by_category : Option ℕ → Option ℕ → Action Totals
unfolding sum_each
sum_by_category start end = gets (λ w. sum_each start end (values w.entries) (λ category. none))

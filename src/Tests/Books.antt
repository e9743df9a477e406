-- ===== src/Tests/Books.antt =====
-- Entries of the ledger, recorded and reversed.
use mini_company.Prelude.{◌≡◌, ◌↔◌, refl, false, none, some}
use mini_company.Prelude.Int.{pos, ◌+ℤ◌, negate}
use mini_company.Prelude.Dict.{lookup, insert, values}
use mini_company.Ledger.Domain.{revenue, monthly, all}
use mini_company.Ledger.Calendar.{resolve_period}
use mini_company.Ledger.Repository.{is_outside}
use mini_company.Ledger.Service.{record_entry, reverse_entry, summarize}
use mini_company.Ledger.Books.{Reach, Sound, Reach-IsSound}
use mini_company.Ledger.Books
use mini_company.Ledger.Totals.{total, IsReport, summarize_lem}
use mini_company.Ledger.Windows.{SamePeriod, resolve_period_lem}
use mini_company.Ledger.Reversals.{reverse_entry_lem, reversal_refusal}
use mini_company.Company.World.{World, error_of}
use mini_company.Company.Office.{opening}
use mini_company.Samples.{runtime, even_months}

-- A sale is recorded, with the id 0, and reversed.
abbrev sold : World
sold = (record_entry even_months runtime revenue (pos 500) 1000 none none none opening).1

abbrev reversed : World
reversed = (reverse_entry even_months runtime 0 none sold).1

sold-reached : Reach even_months runtime sold
sold-reached =
    Books.Reach.next Books.Reach.opens (Books.Step.records revenue (pos 500) 1000 none none none)

Reach-IsSound_example : Sound even_months runtime reversed
Reach-IsSound_example =
    Reach-IsSound even_months runtime (Books.Reach.next sold-reached (Books.Step.reverses 0 none))

reverse_entry_lem_example :
    error_of (reverse_entry even_months runtime 0 none sold).0 ≡ reversal_refusal 0 sold
reverse_entry_lem_example =
    (reverse_entry_lem even_months runtime 0 none sold
      (Reach-IsSound even_months runtime sold-reached)).0

reversed_once : error_of (reverse_entry even_months runtime 0 none sold).0 ≡ none
unfolding reverse_entry record_entry lookup insert values
reversed_once = refl

reversed_to_zero : total none none revenue (values reversed.entries) ≡ pos 0
unfolding reverse_entry record_entry lookup insert values total is_outside negate ◌+ℤ◌
reversed_to_zero = refl

summarize_lem_example :
    IsReport all none none
      (λ category. total none none category (values sold.entries))
      (summarize even_months runtime all (some 7) sold).0
unfolding resolve_period
summarize_lem_example = (summarize_lem even_months runtime all 7 sold).1

resolve_period_lem_example :
    let (start, end) = resolve_period even_months monthly 5 in
    (is_outside start end 9 ≡ false) ↔ SamePeriod even_months monthly 5 9
resolve_period_lem_example = resolve_period_lem even_months monthly 5 9

-- ===== src/Ledger/Totals.antt =====
-- What `summarize` reports, and what a reversal makes of it.
use mini_company.Prelude.{
  ℕ, ◌≡◌, refl, ap, sym, ◌∙◌, inl, inr, Bool, not, ◌&&◌, Option, none, some, List, [], ◌∷◌,
  if◌then◌else◌, Bool-cases, arith,
}
use mini_company.Prelude.Int.{ℤ, pos, ◌+ℤ◌, negate, +ℤ_parts, eq_of_parts}
use mini_company.Prelude.Dict.{values}
use mini_company.Ledger.Domain.{
  LedgerCategory, revenue, cost, llm_cost, category_eq, Period, LedgerEntry, LedgerSummary,
}
use mini_company.Ledger.Calendar.{Calendar, resolve_period}
use mini_company.Ledger.Repository.{Totals, or_zero, is_outside, count_in, sum_each}
use mini_company.Ledger.Service.{net_of, summarize}
use mini_company.Company.World.{Runtime, World, Result, ok}

-- Laws of the sum.
pub +ℤ_assoc : (a b c : ℤ) → (a +ℤ b) +ℤ c ≡ a +ℤ (b +ℤ c)
+ℤ_assoc a b c =
    eq_of_parts ((a +ℤ b) +ℤ c) (a +ℤ (b +ℤ c))
      (omega (arith, +ℤ_parts a b, +ℤ_parts (a +ℤ b) c, +ℤ_parts b c, +ℤ_parts a (b +ℤ c)))

pub +ℤ_zero : (a : ℤ) → a +ℤ pos 0 ≡ a
+ℤ_zero a = eq_of_parts (a +ℤ pos 0) a (omega (arith, +ℤ_parts a (pos 0)))

pub zero_+ℤ : (a : ℤ) → pos 0 +ℤ a ≡ a
zero_+ℤ a = eq_of_parts (pos 0 +ℤ a) a (omega (arith, +ℤ_parts (pos 0) a))

-- The sum of the amounts of a category in a window, written down from the entries.
abbrev pub counts : Option ℕ → Option ℕ → LedgerCategory → LedgerEntry → Bool
counts start end category entry =
    not (is_outside start end entry.occurred_at) && category_eq entry.category category

unfoldable pub total : Option ℕ → Option ℕ → LedgerCategory → List LedgerEntry → ℤ
total start end category [] = pos 0
total start end category (entry ∷ entries) =
    let rest = total start end category entries in
    if counts start end category entry then entry.amount +ℤ rest else rest

sum_each-total :
    (start end : Option ℕ) (category : LedgerCategory) (entries : List LedgerEntry)
    (totals : Totals)
    → or_zero (sum_each start end entries totals category)
      ≡ or_zero (totals category) +ℤ total start end category entries
unfolding sum_each total
sum_each-total start end category [] totals = sym (+ℤ_zero (or_zero (totals category)))
sum_each-total start end category (entry ∷ entries) totals =
    elim (Bool-cases (is_outside start end entry.occurred_at)) [
      | inl outside ↦ rw outside (sum_each-total start end category entries totals)
      | inr inside ↦ elim (Bool-cases (category_eq entry.category category)) [
        | inl same ↦
            rw (inside, same)
              (sum_each-total start end category entries (count_in entry totals)
                ∙ rw same (
                    +ℤ_assoc (or_zero (totals category)) entry.amount
                      (total start end category entries)))
        | inr other ↦
            rw (inside, other)
              (sum_each-total start end category entries (count_in entry totals) ∙ rw other refl)
      ]
    ]

-- Profit and loss from the sums.
net_of_sums :
    (totals : LedgerCategory → ℤ)
    → net_of totals ≡ totals revenue +ℤ (negate (totals cost) +ℤ negate (totals llm_cost))
unfolding net_of
net_of_sums totals =
    ap (λ a. (a +ℤ negate (totals cost)) +ℤ negate (totals llm_cost)) (zero_+ℤ (totals revenue))
    ∙ +ℤ_assoc (totals revenue) (negate (totals cost)) (negate (totals llm_cost))

-- A report with a period, its window, the sums and the net.
pub record IsReport (period : Period) (start end : Option ℕ) (sum : LedgerCategory → ℤ)
    (r : Result LedgerSummary) : Type 0 where
  pub summary : LedgerSummary
  pub returned : r ≡ ok summary
  pub of_period : summary.period ≡ period
  pub from_start : summary.start ≡ start
  pub to_end : summary.end ≡ end
  pub totals : (category : LedgerCategory) → summary.totals category ≡ sum category
  pub net : summary.net ≡ sum revenue +ℤ (negate (sum cost) +ℤ negate (sum llm_cost))

-- Whatever is in the books, a summary of a period reports for every category the sum of the
-- amounts of its entries from the start of the period to before its end, and as the net the revenue
-- less the costs and the costs of language models; it changes no store.
pub summarize_lem :
    (calendar : Calendar) (runtime : Runtime) (period : Period) (at : ℕ) (w : World)
    → let (start, end) = resolve_period calendar period at in
      ((summarize calendar runtime period (some at) w).1 ≡ w)
      × IsReport period start end
          (λ category. total start end category (values w.entries))
          (summarize calendar runtime period (some at) w).0
unfolding summarize
summarize_lem calendar runtime period at w =
    let (start, end) = resolve_period calendar period at in
    let sums = sum_each start end (values w.entries) (λ category. none) in
    let each : (category : LedgerCategory)
        → or_zero (sums category) ≡ total start end category (values w.entries) =
      λ category. sum_each-total start end category (values w.entries) (λ c. none) ∙ zero_+ℤ _ in
    (
      refl,
      record {
        summary = record {
          period = period;
          start = start;
          end = end;
          totals = λ category. or_zero (sums category);
          net = net_of (λ category. or_zero (sums category));
        };
        returned = refl;
        of_period = refl;
        from_start = refl;
        to_end = refl;
        totals = each;
        net =
            net_of_sums (λ category. or_zero (sums category))
            ∙ rw (each revenue, each cost, each llm_cost) refl;
      },
    )

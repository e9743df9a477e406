-- ===== src/Ledger/Reversals.antt =====
-- `reverse_entry`.
use mini_company.Prelude.{
  ℕ, ◌≡◌, refl, sym, ◌∙◌, inl, inr, Bool, Option, none, some, is_some, points_to, find_first, any,
  List, [], ◌∷◌, if◌then◌else◌, Bool-cases, Option-cases, arith,
}
use mini_company.Prelude.Text.{Text}
use mini_company.Prelude.Int.{pos, ◌+ℤ◌, negate}
use mini_company.Prelude.Dict.{Dict, lookup, insert, values}
use mini_company.Ledger.Domain.{LedgerCategory, category_eq, LedgerEntry}
use mini_company.Ledger.Calendar.{Calendar}
use mini_company.Ledger.Books.{IsSound}
use mini_company.Ledger.Repository.{is_outside}
use mini_company.Ledger.Totals.{total, counts, +ℤ_assoc, +ℤ_zero, zero_+ℤ}
use mini_company.Ledger.Service.{reverse_entry}
use mini_company.Company.World.{
  Runtime, World, Error, error_of, ledger_entry_not_found, cannot_reverse_reversal,
  entry_already_reversed,
}

-- An entry under a new key adds its amount to the sums that count it.
total-insert :
    (start end : Option ℕ) (category : LedgerCategory) (k : ℕ) (e : LedgerEntry)
    (d : Dict LedgerEntry)
    → lookup k d ≡ none
    → total start end category (values (insert k e d))
      ≡ total start end category (values d)
        +ℤ (if counts start end category e then e.amount else pos 0)
unfolding total insert lookup values
total-insert start end category k e [] h = elim (Bool-cases (counts start end category e)) [
  | inl counted ↦ rw counted (+ℤ_zero e.amount ∙ sym (zero_+ℤ e.amount))
  | inr skipped ↦ rw skipped (sym (+ℤ_zero (pos 0)))
]
total-insert start end category k e ((j, x) ∷ d) h = ground (
  arith,
  total-insert start end category k e d,
  +ℤ_assoc x.amount (total start end category (values d))
      (if counts start end category e then e.amount else pos 0),
)

-- Why an entry cannot be reversed, if it cannot.
abbrev pub reversal_refusal : ℕ → World → Option Error
reversal_refusal i w = elim (lookup i w.entries) [
  | none ↦ some ledger_entry_not_found
  | some e ↦
      if is_some e.reverses_id
      then some cannot_reverse_reversal
      else if any (λ (x : LedgerEntry). points_to x.reverses_id i) (values w.entries)
      then some entry_already_reversed
      else none
]

find_first-any :
    (p : LedgerEntry → Bool) (es : List LedgerEntry) → is_some (find_first p es) ≡ any p es
find_first-any p [] = refl
find_first-any p (e ∷ es) = ground (arith, find_first-any p es)

-- On sound books `reverse_entry` raises exactly when the entry is not stored, is a reversal itself
-- or has been reversed, and then changes nothing. Otherwise the sum of the entry's category over
-- all time loses the amount of the entry, and the sums of the other categories stay.
pub reverse_entry_lem :
    (calendar : Calendar) (runtime : Runtime) (i : ℕ) (memo : Option Text) (w : World)
    → IsSound runtime w.drawn w.entries
    → let (r, w') = reverse_entry calendar runtime i memo w in
      (error_of r ≡ reversal_refusal i w)
      × ((e : Error) → reversal_refusal i w ≡ some e → w' ≡ w)
      × ((o : LedgerEntry) (category : LedgerCategory)
          → lookup i w.entries ≡ some o
          → reversal_refusal i w ≡ none
          → total none none category (values w'.entries)
            ≡ total none none category (values w.entries)
              +ℤ (if category_eq o.category category then negate o.amount else pos 0))
unfolding reverse_entry is_outside
reverse_entry_lem calendar runtime i memo w s = elim (Option-cases (lookup i w.entries)) [
  | inl absent ↦ (ground arith, λ e h. ground arith, λ o c h q. absurd (ground arith))
  | inr (e, found) ↦
      let seen = find_first-any (λ x. points_to x.reverses_id i) (values w.entries) in
      let free = s.free w.drawn (omega arith) in
      (
        ground (arith, seen),
        λ x h. ground (arith, seen),
        λ o c h q.
            let same : e ≡ o = cc in
            ground (
              arith,
              seen,
              same,
              total-insert none none c (runtime.object_id w.drawn)
                  (record o {
                    id = some (runtime.object_id w.drawn);
                    amount = negate o.amount;
                    occurred_at = runtime.time w.reads;
                    memo = memo;
                    reverses_id = some i;
                  })
                  w.entries free,
            ),
      )
]

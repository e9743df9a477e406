-- ===== src/Ledger/Books.antt =====
-- The books stay in order: nothing is rewritten, and an entry is reversed once at most.
use mini_company.Prelude.{
  ℕ, ◌+◌, ◌≤◌, ◌≡◌, ◌≢◌, inl, inr, refl, subst, sym, Option, none, some, points_to, find_first,
  Option-cases, arith,
}
use mini_company.Prelude.Text.{Text}
use mini_company.Prelude.Int.{ℤ, negate}
use mini_company.Prelude.Dict.{
  Dict, lookup, insert, values, lookup-insert, insert_cases, IsKeyed, insert-IsKeyed,
  find_first-none,
}
use mini_company.Ledger.Domain.{LedgerCategory, LedgerEntry}
use mini_company.Ledger.Calendar.{Calendar}
use mini_company.Ledger.Service.{record_entry, reverse_entry}
use mini_company.Company.World.{Runtime, World}
use mini_company.Company.Office.{opening}

-- An entry reverses the one at `j`: that one is stored and no reversal itself, and the two cancel out.
pub record IsReversalOf (entries : Dict LedgerEntry) (j : ℕ) (r : LedgerEntry) : Type 0 where
  pub original : LedgerEntry
  pub found : lookup j entries ≡ some original
  pub is_first : original.reverses_id ≡ none
  pub category : r.category ≡ original.category
  pub unit : r.unit ≡ original.unit
  pub amount : r.amount ≡ negate original.amount

module _ (runtime : Runtime) where
  pub record IsSound (drawn : ℕ) (entries : Dict LedgerEntry) : Type 0 where
    pub keyed : IsKeyed entries
    pub entry_id : (i : ℕ) (e : LedgerEntry) → lookup i entries ≡ some e → e.id ≡ some i
    pub free : (k : ℕ) → drawn ≤ k → lookup (runtime.object_id k) entries ≡ none
    pub reversal :
        (i j : ℕ) (r : LedgerEntry)
        → lookup i entries ≡ some r
        → r.reverses_id ≡ some j
        → IsReversalOf entries j r
    pub once :
        (i k j : ℕ) (r s : LedgerEntry)
        → lookup i entries ≡ some r
        → lookup k entries ≡ some s
        → r.reverses_id ≡ some j
        → s.reverses_id ≡ some j
        → i ≡ k

  module _ {drawn : ℕ} {entries : Dict LedgerEntry} (s : IsSound drawn entries) where
    later-IsSound : (n : ℕ) → drawn ≤ n → IsSound n entries
    later-IsSound n h = record {
      keyed = s.keyed;
      entry_id = s.entry_id;
      free = λ k le. s.free k (omega arith);
      reversal = s.reversal;
      once = s.once;
    }

    -- What is stored stays stored when an entry is added.
    kept :
        (i : ℕ) (d e : LedgerEntry)
        → lookup i entries ≡ some d
        → lookup i (insert (runtime.object_id drawn) e entries) ≡ some d
    kept i d e found = ground (
      arith,
      lookup-insert (runtime.object_id drawn) i e entries,
      s.free drawn (omega arith),
      found,
    )

    reversal_kept :
        (j : ℕ) (r e : LedgerEntry)
        → IsReversalOf entries j r
        → IsReversalOf (insert (runtime.object_id drawn) e entries) j r
    reversal_kept j r e v = record {
      original = v.original;
      found = kept j v.original e v.found;
      is_first = v.is_first;
      category = v.category;
      unit = v.unit;
      amount = v.amount;
    }

    -- An entry is added under the id just drawn; if it reverses another one, it is the first to.
    add_entry-IsSound :
        (e : LedgerEntry)
        → e.id ≡ some (runtime.object_id drawn)
        → ((j : ℕ) → e.reverses_id ≡ some j → IsReversalOf entries j e)
        → ((i j : ℕ) (d : LedgerEntry)
            → e.reverses_id ≡ some j
            → lookup i entries ≡ some d
            → d.reverses_id ≢ some j)
        → IsSound (drawn + 1) (insert (runtime.object_id drawn) e entries)
    add_entry-IsSound e named reverses first = record {
      keyed = insert-IsKeyed _ e entries s.keyed;
      entry_id = λ i d h. elim (insert_cases _ i e d entries h) [
        | inl (at, same) ↦ cc
        | inr (_, old) ↦ s.entry_id i d old
      ];
      free = λ k h.
          let ne : runtime.object_id drawn ≢ runtime.object_id k =
            λ q. absurd (omega (arith, runtime.object_id_unique drawn k q)) in
          ground (
            arith,
            lookup-insert (runtime.object_id drawn) (runtime.object_id k) e entries,
            ne,
            s.free k (omega arith),
          );
      reversal = λ i j r h q. elim (insert_cases _ i e r entries h) [
        | inl (at, same) ↦ rw (← same) (reversal_kept j e e (reverses j (cc)))
        | inr (_, old) ↦ reversal_kept j r e (s.reversal i j r old q)
      ];
      once = λ i k j r t h g q p. elim (insert_cases _ i e r entries h) [
        | inl (at, same) ↦ elim (insert_cases _ k e t entries g) [
          | inl (at', same') ↦ cc
          | inr (_, old) ↦ absurd (first k j t (cc) old p)
        ]
        | inr (_, old) ↦ elim (insert_cases _ k e t entries g) [
          | inl (at', same') ↦ absurd (first i j r (cc) old q)
          | inr (_, old') ↦ s.once i k j r t old old' q p
        ]
      ];
    }

module _ (calendar : Calendar) (runtime : Runtime) where
  -- A call on the books, or anything that leaves them alone and draws ids for other entities.
  pub data Step (w : World) : World → Type 0 where
    records :
        (category : LedgerCategory) (amount : ℤ) (occurred_at : ℕ) (employee_id task_id : Option ℕ)
        (memo : Option Text)
        → Step w
            (record_entry calendar runtime category amount occurred_at employee_id task_id memo w).1
    reverses : (i : ℕ) (memo : Option Text) → Step w (reverse_entry calendar runtime i memo w).1
    others : {w' : World} → w'.entries ≡ w.entries → w.drawn ≤ w'.drawn → Step w w'

  abbrev pub Sound : World → Type 0
  Sound w = IsSound runtime w.drawn w.entries

  record_entry-IsSound :
      (category : LedgerCategory) (amount : ℤ) (at : ℕ) (employee_id task_id : Option ℕ)
      (memo : Option Text) (w : World)
      → Sound w
      → Sound (record_entry calendar runtime category amount at employee_id task_id memo w).1
  unfolding record_entry
  record_entry-IsSound category amount at employee_id task_id memo w s =
      add_entry-IsSound runtime s _ refl (λ j q. absurd (ground arith))
        (λ i j d q. absurd (ground arith))

  reverse_entry-IsSound :
      (i : ℕ) (memo : Option Text) (w : World)
      → Sound w
      → Sound (reverse_entry calendar runtime i memo w).1
  unfolding reverse_entry
  reverse_entry-IsSound i memo w s = elim (Option-cases (lookup i w.entries)) [
    | inl absent ↦ rw absent s
    | inr (o, found) ↦ elim (Option-cases o.reverses_id) [
      | inr (j, is_reversal) ↦ rw (found, is_reversal) s
      | inl is_first ↦
          elim (Option-cases (find_first (λ e. points_to e.reverses_id i) (values w.entries))) [
            | inr (r, reversed) ↦ rw (found, is_first, reversed) s
            | inl unreversed ↦
                rw (found, is_first, unreversed)
                  (add_entry-IsSound runtime s _ refl
                    (λ j q. record {
                      original = o;
                      found = ground arith;
                      is_first = is_first;
                      category = refl;
                      unit = refl;
                      amount = refl;
                    })
                    (λ k j d q held p. ground (
                      arith,
                      find_first-none (λ e. points_to e.reverses_id i) w.entries k d unreversed
                          held,
                    )))
          ]
    ]
  ]

  pub data Reach : World → Type 0 where
    opens : Reach opening
    next : {v w : World} → Reach v → Step v w → Reach w

  Step-IsSound : {v w : World} → Step v w → Sound v → Sound w
  Step-IsSound {v} (records category amount at employee_id task_id memo) s =
      record_entry-IsSound category amount at employee_id task_id memo v s
  Step-IsSound {v} (reverses i memo) s = reverse_entry-IsSound i memo v s
  Step-IsSound {v} (others {w'} same later) s =
      subst (IsSound runtime w'.drawn) (sym same) (later-IsSound runtime s w'.drawn later)

  -- Whatever is recorded and reversed on the empty books, in any order and with anything else the
  -- office does in between: every reversal is of a stored entry of its category and unit that is no
  -- reversal itself, with the opposite amount, and no entry is reversed twice.
  pub Reach-IsSound : {w : World} → Reach w → Sound w
  unfolding lookup
  Reach-IsSound opens = record {
    keyed = tt;
    entry_id = λ i e h. cc;
    free = λ k h. refl;
    reversal = λ i j r h q. absurd (ground arith);
    once = λ i k j r s h g q p. cc;
  }
  Reach-IsSound (next r step) = Step-IsSound step (Reach-IsSound r)

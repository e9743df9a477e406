-- ===== src/Tasks/Behaviour/Paging/Order.antt =====
-- The order of the activities: latest first, by id where they happened at once.
use mini_company.Prelude.{
  ℕ, ◌≡◌, ◌≢◌, refl, inl, inr, Bool, true, not, some, List, [], ◌∷◌, ◌++◌, keep, insert_sorted,
  sorted_by, Bool-cases, All, keep-All, arith,
}
use mini_company.Prelude.Dict.{Dict, lookup, values, IsKeyed, values-All}
use mini_company.Tasks.Domain.{Activity}
use mini_company.Tasks.Repository.{is_before, id_or_zero, recent_first}

-- One activity comes after another one in the list.
abbrev pub older : Activity → Activity → Bool
older a b = is_before a.occurred_at a.id b.occurred_at b.id

-- Every activity is newer than all that follow it.
abbrev pub IsDescending : List Activity → Type 0
IsDescending [] = Unit
IsDescending (a ∷ xs) = All (λ b. older b a ≡ true) xs × IsDescending xs

-- Every activity has a number of its own.
abbrev pub AreDistinct : List Activity → Type 0
AreDistinct [] = Unit
AreDistinct (a ∷ xs) = All (λ (b : Activity). id_or_zero a.id ≢ id_or_zero b.id) xs × AreDistinct xs

insert-All {κ} :
    (P : Activity → Type κ) (before : Activity → Activity → Bool) (a : Activity)
    (xs : List Activity)
    → P a
    → All P xs
    → All P (insert_sorted before a xs)
insert-All P before a [] p h = (p, tt)
insert-All P before a (b ∷ xs) p (q, h) = elim (Bool-cases (before a b)) [
  | inl first ↦ rw first (p, (q, h))
  | inr later ↦ rw later (q, insert-All P before a xs p h)
]

pub sorted-All {κ} :
    (P : Activity → Type κ) (before : Activity → Activity → Bool) (xs : List Activity)
    → All P xs
    → All P (sorted_by before xs)
sorted-All P before [] h = h
sorted-All P before (a ∷ xs) (p, h) =
    insert-All P before a (sorted_by before xs) p (sorted-All P before xs h)

older_trans : (a b c : Activity) → older a b ≡ true → older b c ≡ true → older a c ≡ true
older_trans a b c h k = ground arith

older-All :
    (a b : Activity) (xs : List Activity)
    → older b a ≡ true
    → All (λ c. older c b ≡ true) xs
    → All (λ c. older c a ≡ true) xs
older-All a b [] h k = tt
older-All a b (c ∷ xs) h (q, k) = (older_trans c b a q h, older-All a b xs h k)

insert-IsDescending :
    (a : Activity) (xs : List Activity)
    → All (λ (b : Activity). id_or_zero a.id ≢ id_or_zero b.id) xs
    → IsDescending xs
    → IsDescending (insert_sorted (λ a b. not (older a b)) a xs)
insert-IsDescending a [] fresh h = (tt, tt)
insert-IsDescending a (b ∷ xs) (ne, fresh) (newer, h) = elim (Bool-cases (older a b)) [
  | inr first ↦
      let next : older b a ≡ true = ground arith in
      rw first ((next, older-All a b xs next newer), (newer, h))
  | inl later ↦ rw later (
    insert-All (λ c. older c b ≡ true) (λ a b. not (older a b)) a xs later newer,
    insert-IsDescending a xs fresh h,
  )
]

pub recent_first-IsDescending :
    (xs : List Activity) → AreDistinct xs → IsDescending (recent_first xs)
unfolding recent_first
recent_first-IsDescending [] d = tt
recent_first-IsDescending (a ∷ xs) (fresh, d) =
    insert-IsDescending a (recent_first xs)
      (sorted-All (λ (b : Activity). id_or_zero a.id ≢ id_or_zero b.id) (λ a b. not (older a b)) xs
        fresh)
      (recent_first-IsDescending xs d)

-- Activities that are stored under their ids are distinct.
pub values-AreDistinct :
    (d : Dict Activity)
    → IsKeyed d
    → ((i : ℕ) (a : Activity) → lookup i d ≡ some a → a.id ≡ some i)
    → AreDistinct (values d)
unfolding values lookup
values-AreDistinct [] keyed named = tt
values-AreDistinct ((k, x) ∷ d) (free, keyed) named = (
  values-All (λ (b : Activity). id_or_zero x.id ≢ id_or_zero b.id) d keyed
      (λ i b found e. ground (arith, named k x (ground arith), named i b (ground arith))),
  values-AreDistinct d keyed (λ i a h. named i a (ground arith)),
)

pub keep-AreDistinct :
    (p : Activity → Bool) (xs : List Activity) → AreDistinct xs → AreDistinct (keep p xs)
keep-AreDistinct p [] d = tt
keep-AreDistinct p (a ∷ xs) (fresh, d) = elim (Bool-cases (p a)) [
  | inl stays ↦ rw stays (
    keep-All (λ (b : Activity). id_or_zero a.id ≢ id_or_zero b.id) p xs fresh,
    keep-AreDistinct p xs d,
  )
  | inr goes ↦ rw goes (keep-AreDistinct p xs d)
]

keep_every : (p : Activity → Bool) (xs : List Activity) → All (λ x. p x ≡ true) xs → keep p xs ≡ xs
keep_every p [] h = refl
keep_every p (x ∷ xs) (passes, h) = ground (arith, keep_every p xs h)

pub All-middle {κ} :
    (P : Activity → Type κ) (front : List Activity) (a : Activity) (rest : List Activity)
    → All P (front ++ a ∷ rest)
    → P a
All-middle P [] a rest h = h.0
All-middle P (b ∷ front) a rest h = All-middle P front a rest h.1

-- What is older than one of a row of activities, newest first, is what follows that one.
pub keep-older :
    (front : List Activity) (a : Activity) (rest : List Activity)
    → IsDescending (front ++ a ∷ rest)
    → keep (λ b. older b a) (front ++ a ∷ rest) ≡ rest
keep-older [] a rest (newer, h) = ground (arith, keep_every (λ b. older b a) rest newer)
keep-older (b ∷ front) a rest (newer, h) =
    let next = All-middle (λ c. older c b ≡ true) front a rest newer in
    ground (arith, keep-older front a rest h)

pub recent_first-All {κ} :
    (P : Activity → Type κ) (xs : List Activity) → All P xs → All P (recent_first xs)
unfolding recent_first
recent_first-All P xs h = sorted-All P (λ a b. not (older a b)) xs h

-- ===== src/Knowledge/Ranking.antt =====
-- What the best hits above a threshold are.
use mini_company.Prelude.{
  ℕ, zero, suc, ◌≤◌, ◌<◌, ◌≡◌, ◌⊎◌, inl, inr, refl, Bool, true, not, List, [], ◌∷◌, ◌++◌, keep,
  keep-All, keep_test, length, take, drop, leb, sorted_by, sorted_by-perm, insert_sorted, All,
  All-append, Bool-cases, arith,
}
use mathlib.Core.List.{Perm, perm_middle}
use mathlib.Core.List.Perm
use mini_company.Knowledge.Domain.{SearchHit, Float}

-- No hit is below one behind it.
abbrev pub IsFalling : List SearchHit → Type 0
IsFalling [] = Unit
IsFalling (g ∷ hits) = All (λ (h : SearchHit). h.score ≤ g.score) hits × IsFalling hits

abbrev pub higher : SearchHit → SearchHit → Bool
higher g h = leb h.score g.score

-- The hits are the best `top_k` of the candidates, without those below the threshold: what is left
-- out is below it, or there are `top_k` hits, none of them lower.
pub record IsRanking (top_k : ℕ) (threshold : Float) (candidates hits : List SearchHit)
    : Type 0 where
  pub left : List SearchHit
  pub parted : Perm (hits ++ left) candidates
  pub falling : IsFalling hits
  pub passing : All (λ (h : SearchHit). threshold ≤ h.score) hits
  pub few : length hits ≤ top_k
  pub beaten :
      All
        (λ (h : SearchHit).
          (h.score < threshold)
          ⊎ (length hits ≡ top_k) × All (λ (g : SearchHit). h.score ≤ g.score) hits)
        left

All-take {κ} : (P : SearchHit → Type κ) (n : ℕ) (xs : List SearchHit) → All P xs → All P (take n xs)
All-take P zero xs h = tt
All-take P (suc n) [] h = tt
All-take P (suc n) (x ∷ xs) (p, h) = (p, All-take P n xs h)

All-drop {κ} : (P : SearchHit → Type κ) (n : ℕ) (xs : List SearchHit) → All P xs → All P (drop n xs)
All-drop P zero xs h = h
All-drop P (suc n) [] h = tt
All-drop P (suc n) (x ∷ xs) (p, h) = All-drop P n xs h

All-zip :
    (P Q R : SearchHit → Type 0) (xs : List SearchHit)
    → ((x : SearchHit) → P x → Q x → R x)
    → All P xs
    → All Q xs
    → All R xs
All-zip P Q R [] f p q = tt
All-zip P Q R (x ∷ xs) f (px, p) (qx, q) = (f x px qx, All-zip P Q R xs f p q)

insert-All :
    (P : SearchHit → Type 0) (x : SearchHit) (ys : List SearchHit)
    → P x
    → All P ys
    → All P (insert_sorted higher x ys)
insert-All P x [] p h = (p, tt)
insert-All P x (y ∷ ys) p (q, h) = elim (Bool-cases (higher x y)) [
  | inl first ↦ rw first (p, (q, h))
  | inr later ↦ rw later (q, insert-All P x ys p h)
]

insert-IsFalling :
    (x : SearchHit) (ys : List SearchHit) → IsFalling ys → IsFalling (insert_sorted higher x ys)
insert-IsFalling x [] h = (tt, tt)
insert-IsFalling x (y ∷ ys) (below, h) = elim (Bool-cases (higher x y)) [
  | inl first ↦
      let under : y.score ≤ x.score = ground (arith, first) in
      rw first (
        (
          under,
          All-zip (λ h. h.score ≤ y.score) (λ h. h.score ≤ y.score) (λ h. h.score ≤ x.score) ys
              (λ h p q. omega arith) below below,
        ),
        (below, h),
      )
  | inr later ↦
      let over : x.score ≤ y.score = ground (arith, later) in
      rw later (insert-All (λ h. h.score ≤ y.score) x ys over below, insert-IsFalling x ys h)
]

sorted-IsFalling : (xs : List SearchHit) → IsFalling (sorted_by higher xs)
sorted-IsFalling [] = tt
sorted-IsFalling (x ∷ xs) = insert-IsFalling x (sorted_by higher xs) (sorted-IsFalling xs)

module _ (threshold : Float) where
  abbrev is_over : SearchHit → Bool
  is_over hit = leb threshold hit.score

  abbrev is_under : SearchHit → Bool
  is_under hit = not (is_over hit)

  abbrev best : ℕ → List SearchHit → List SearchHit
  best n xs = keep is_over (take n xs)

  abbrev others : ℕ → List SearchHit → List SearchHit
  others n xs = keep is_under (take n xs) ++ drop n xs

  All-others :
      (P : SearchHit → Type 0) (n : ℕ) (xs : List SearchHit) → All P xs → All P (others n xs)
  All-others P n xs h =
      All-append P (keep is_under (take n xs)) (drop n xs)
        (keep-All P is_under (take n xs) (All-take P n xs h)) (All-drop P n xs h)

  best-All : (P : SearchHit → Type 0) (n : ℕ) (xs : List SearchHit) → All P xs → All P (best n xs)
  best-All P n xs h = keep-All P is_over (take n xs) (All-take P n xs h)

  best-parted : (n : ℕ) (xs : List SearchHit) → Perm (best n xs ++ others n xs) xs
  best-parted zero xs = Perm.rfl
  best-parted (suc n) [] = Perm.rfl
  best-parted (suc n) (x ∷ xs) = elim (Bool-cases (is_over x)) [
    | inl yes_ ↦ rw yes_ (Perm.cons x (best-parted n xs))
    | inr no_ ↦
        rw no_ (Perm.trans (perm_middle (best n xs) (others n xs)) (Perm.cons x (best-parted n xs)))
  ]

  best-IsFalling : (n : ℕ) (xs : List SearchHit) → IsFalling xs → IsFalling (best n xs)
  best-IsFalling zero xs h = tt
  best-IsFalling (suc n) [] h = tt
  best-IsFalling (suc n) (x ∷ xs) (below, h) = elim (Bool-cases (is_over x)) [
    | inl yes_ ↦ rw yes_ (best-All (λ h. h.score ≤ x.score) n xs below, best-IsFalling n xs h)
    | inr no_ ↦ rw no_ (best-IsFalling n xs h)
  ]

  length-best : (n : ℕ) (xs : List SearchHit) → length (best n xs) ≤ n
  length-best zero xs = omega arith
  length-best (suc n) [] = omega arith
  length-best (suc n) (x ∷ xs) = elim (Bool-cases (is_over x)) [
    | inl yes_ ↦ rw yes_ (omega (arith, length-best n xs))
    | inr no_ ↦ rw no_ (omega (arith, length-best n xs))
  ]

  -- A hit is below the threshold, or there are `n` hits, none of them lower.
  abbrev IsBeaten : ℕ → List SearchHit → SearchHit → Type 0
  IsBeaten n hits h =
      (h.score < threshold) ⊎ (length hits ≡ n) × All (λ (g : SearchHit). h.score ≤ g.score) hits

  every : (P : SearchHit → Type 0) (xs : List SearchHit) → ((x : SearchHit) → P x) → All P xs
  every P [] f = tt
  every P (x ∷ xs) f = (f x, every P xs f)

  others-IsBeaten :
      (n : ℕ) (xs : List SearchHit) → IsFalling xs → All (IsBeaten n (best n xs)) (others n xs)
  others-IsBeaten zero xs h = every (IsBeaten 0 []) xs (λ x. inr (refl, tt))
  others-IsBeaten (suc n) [] h = tt
  others-IsBeaten (suc n) (x ∷ xs) (below, h) =
      let under = All-others (λ h. h.score ≤ x.score) n xs below in
      let rest = others-IsBeaten n xs h in
      elim (Bool-cases (is_over x)) [
        | inl yes_ ↦ rw yes_ (
            All-zip (λ h. h.score ≤ x.score) (IsBeaten n (best n xs))
              (IsBeaten (suc n) (x ∷ best n xs)) (others n xs)
              (λ h low beaten. elim beaten [
                | inl out ↦ inl out
                | inr (full, over) ↦ inr (omega (arith, full), (low, over))
              ])
              under rest)
        | inr no_ ↦
            let out : x.score < threshold = ground (arith, no_) in
            rw no_ (
              inl out,
              All-zip (λ h. h.score ≤ x.score) (IsBeaten n (best n xs))
                  (IsBeaten (suc n) (best n xs)) (others n xs) (λ h low beaten. inl (omega arith))
                  under rest,
            )
      ]

  passing_of :
      (xs : List SearchHit)
      → All (λ (h : SearchHit). is_over h ≡ true) xs
      → All (λ (h : SearchHit). threshold ≤ h.score) xs
  passing_of [] h = tt
  passing_of (x ∷ xs) (p, h) = (ground (arith, p), passing_of xs h)

  pub sorted-IsRanking :
      (n : ℕ) (xs : List SearchHit)
      → IsRanking n threshold xs
          (keep (λ (h : SearchHit). leb threshold h.score) (take n (sorted_by higher xs)))
  sorted-IsRanking n xs =
      let sorted = sorted_by higher xs in
      let falls = sorted-IsFalling xs in
      record {
        left = others n sorted;
        parted = Perm.trans (best-parted n sorted) (sorted_by-perm higher xs);
        falling = best-IsFalling n sorted falls;
        passing = passing_of (best n sorted) (keep_test is_over (take n sorted));
        few = length-best n sorted;
        beaten = others-IsBeaten n sorted falls;
      }

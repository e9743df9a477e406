-- ===== src/Prelude/Lists.antt =====
-- Lists over the native numbers, filters by Boolean tests, and a stable insertion sort.
use Prim.Native.Nat.{ℕ, zero, suc, ◌+◌, ◌-◌, ◌≤◌, min}
use mathlib.Core.Path.{◌≡◌, refl, subst, sym, ◌∙◌}
use mathlib.Core.Logic.{inl, inr}
use mathlib.Core.Bool.{Bool, true, false}
use mathlib.Core.Option.{Option, none, some}
use mathlib.Core.List.{List, [], ◌∷◌, ◌++◌}
use mathlib.Core.List.Perm
use mathlib.Core.List.{Perm}
use native.Mathlib.Omega.{arith}
use native.Mathlib.Nat.{zero-add, suc-add}
use mini_company.Prelude.Tests.{if◌then◌else◌, Bool-cases}

module _ {ℓ} {A : Type ℓ} where
  abbrev pub length : List A → ℕ
  length [] = 0
  length (x ∷ xs) = suc (length xs)

  abbrev pub take : ℕ → List A → List A
  take zero xs = []
  take (suc n) [] = []
  take (suc n) (x ∷ xs) = x ∷ take n xs

  abbrev pub drop : ℕ → List A → List A
  drop zero xs = xs
  drop (suc n) [] = []
  drop (suc n) (x ∷ xs) = drop n xs

  pub length-append : (xs ys : List A) → length (xs ++ ys) ≡ length xs + length ys
  length-append [] ys = omega arith
  length-append (x ∷ xs) ys = omega (arith, length-append xs ys)

  pub take-append-drop : (n : ℕ) (xs : List A) → take n xs ++ drop n xs ≡ xs
  take-append-drop zero xs = refl
  take-append-drop (suc n) [] = refl
  take-append-drop (suc n) (x ∷ xs) = cc (take-append-drop n xs)

  pub length-take-le : (n : ℕ) (xs : List A) → length (take n xs) ≤ n
  length-take-le zero xs = omega arith
  length-take-le (suc n) [] = omega arith
  length-take-le (suc n) (x ∷ xs) = omega (arith, length-take-le n xs)

  -- The elements that pass a Boolean test, in order.
  abbrev pub keep : (A → Bool) → List A → List A
  keep p [] = []
  keep p (x ∷ xs) = if p x then x ∷ keep p xs else keep p xs

  abbrev pub find_first : (A → Bool) → List A → Option A
  find_first p [] = none
  find_first p (x ∷ xs) = if p x then some x else find_first p xs

  abbrev pub any : (A → Bool) → List A → Bool
  any p [] = false
  any p (x ∷ xs) = if p x then true else any p xs

  -- Python's `sorted` for a comparison `before x y` that says that `x` may stand before `y`.
  abbrev pub insert_sorted : (A → A → Bool) → A → List A → List A
  insert_sorted before x [] = x ∷ []
  insert_sorted before x (y ∷ ys) = if before x y then x ∷ y ∷ ys else y ∷ insert_sorted before x ys

  abbrev pub sorted_by : (A → A → Bool) → List A → List A
  sorted_by before [] = []
  sorted_by before (x ∷ xs) = insert_sorted before x (sorted_by before xs)

  abbrev pub All {κ} : (A → Type κ) → List A → Type κ
  All P [] = Unit
  All P (x ∷ xs) = P x × All P xs

  pub All-append {κ} : (P : A → Type κ) (xs ys : List A) → All P xs → All P ys → All P (xs ++ ys)
  All-append P [] ys h k = k
  All-append P (x ∷ xs) ys (p, h) k = (p, All-append P xs ys h k)

  pub All-split {κ} : (P : A → Type κ) (xs ys : List A) → All P (xs ++ ys) → All P xs × All P ys
  All-split P [] ys h = (tt, h)
  All-split P (x ∷ xs) ys (p, h) = let (hx, hy) = All-split P xs ys h in ((p, hx), hy)

  insert_sorted-perm :
      (before : A → A → Bool) (x : A) (ys : List A) → Perm (insert_sorted before x ys) (x ∷ ys)
  insert_sorted-perm before x [] = Perm.rfl
  insert_sorted-perm before x (y ∷ ys) = elim (Bool-cases (before x y)) [
    | inl first ↦ rw first Perm.rfl
    | inr later ↦
        rw later (Perm.trans (Perm.cons y (insert_sorted-perm before x ys)) (Perm.swap x y ys))
  ]

  pub sorted_by-perm : (before : A → A → Bool) (xs : List A) → Perm (sorted_by before xs) xs
  sorted_by-perm before [] = Perm.rfl
  sorted_by-perm before (x ∷ xs) =
      Perm.trans (insert_sorted-perm before x (sorted_by before xs))
        (Perm.cons x (sorted_by-perm before xs))

  pub keep-All {κ} : (P : A → Type κ) (p : A → Bool) (xs : List A) → All P xs → All P (keep p xs)
  keep-All P p [] h = h
  keep-All P p (x ∷ xs) (px, h) = elim (Bool-cases (p x)) [
    | inl yes_ ↦ rw yes_ (px, keep-All P p xs h)
    | inr no_ ↦ rw no_ (keep-All P p xs h)
  ]

  pub keep_test : (p : A → Bool) (xs : List A) → All (λ x. p x ≡ true) (keep p xs)
  keep_test p [] = tt
  keep_test p (x ∷ xs) = elim (Bool-cases (p x)) [
    | inl yes_ ↦ rw yes_ (yes_, keep_test p xs)
    | inr no_ ↦ rw no_ (keep_test p xs)
  ]

  pub find_first-All {κ} :
      (P : A → Type κ) (p : A → Bool) (xs : List A) (x : A)
      → All P xs
      → find_first p xs ≡ some x
      → P x × (p x ≡ true)
  find_first-All P p [] x h e = cc
  find_first-All P p (y ∷ ys) x (py, h) e = elim (Bool-cases (p y)) [
    | inl yes_ ↦ let same : y ≡ x = ground arith in (subst P same py, cc)
    | inr no_ ↦ find_first-All P p ys x h (rw no_ at e)
  ]

  pub length-drop : (n : ℕ) (xs : List A) → length (drop n xs) ≡ length xs - n
  length-drop zero xs = omega arith
  length-drop (suc n) [] = omega arith
  length-drop (suc n) (x ∷ xs) = omega (arith, length-drop n xs)

  pub length-take : (n : ℕ) (xs : List A) → length (take n xs) ≡ min n (length xs)
  length-take zero xs = omega arith
  length-take (suc n) [] = omega arith
  length-take (suc n) (x ∷ xs) = omega (arith, length-take n xs)

  drop_nil : (n : ℕ) → drop n [] ≡ []
  drop_nil zero = refl
  drop_nil (suc n) = refl

  pub drop-drop : (n m : ℕ) (xs : List A) → drop n (drop m xs) ≡ drop (m + n) xs
  drop-drop n zero xs = rw zero-add
  drop-drop n (suc m) [] = drop_nil n ∙ sym (drop_nil (suc m + n))
  drop-drop n (suc m) (x ∷ xs) = rw suc-add (drop-drop n m xs)

  pub drop-append : (n : ℕ) (xs ys : List A) → n ≤ length xs → drop n (xs ++ ys) ≡ drop n xs ++ ys
  drop-append zero xs ys h = refl
  drop-append (suc n) [] ys h = absurd (omega arith)
  drop-append (suc n) (x ∷ xs) ys h = drop-append n xs ys (omega arith)

  pub drop_all : (n : ℕ) (xs : List A) → length xs ≤ n → drop n xs ≡ []
  drop_all zero [] h = refl
  drop_all zero (x ∷ xs) h = absurd (omega arith)
  drop_all (suc n) [] h = refl
  drop_all (suc n) (x ∷ xs) h = drop_all n xs (omega arith)

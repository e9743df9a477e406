-- ===== src/Tasks/Behaviour/Paging/Slices.antt =====
-- Pieces of a list of activities, and what the list shows of them.
use mini_company.Prelude.{
  ℕ, zero, suc, ◌+◌, ◌≤◌, ◌<◌, ◌≡◌, refl, true, some, List, [], ◌∷◌, ◌++◌, map, length, length-take,
  take, drop, keep, ltb, ◌==◌, is_some, All, arith,
}
use mini_company.Prelude.Dict.{values}
use mini_company.Tasks.Domain.{Activity}
use mini_company.Tasks.Repository.{recent_first}
use mini_company.Tasks.Responses.{ActivityResponse, activity_response, for_each}
use mini_company.Tasks.Service.{last}
use mini_company.Tasks.Repository.{id_or_zero}
use mini_company.Company.World.{World, ok}

-- What the list shows of an activity.
abbrev pub shown : Activity → ActivityResponse
shown a = record {
  id = id_or_zero a.id;
  employee_id = a.employee_id;
  task_id = a.task_id;
  level = a.level;
  message = a.message;
  occurred_at = a.occurred_at;
}

-- The activities of an employee, latest first.
abbrev pub activities_of : ℕ → World → List Activity
activities_of employee_id w =
    recent_first (keep (λ (a : Activity). a.employee_id == employee_id) (values w.activities))

pub take-take : (n m : ℕ) (xs : List Activity) → n ≤ m → take n (take m xs) ≡ take n xs
take-take zero m xs h = refl
take-take (suc n) zero xs h = absurd (omega arith)
take-take (suc n) (suc m) [] h = refl
take-take (suc n) (suc m) (x ∷ xs) h = cc (take-take n m xs (omega arith))

pub length-take_more :
    (n : ℕ) (xs : List Activity) → ltb n (length (take (n + 1) xs)) ≡ ltb n (length xs)
length-take_more n xs = ground (arith, length-take (n + 1) xs)

-- The last of the first n + 1 activities, where there are that many.
pub split_last :
    (n : ℕ) (xs : List Activity)
    → n < length xs
    → (front : List Activity) × (a : Activity) × (xs ≡ front ++ a ∷ drop (suc n) xs)
      × (last (take (suc n) xs) ≡ some a)
split_last n [] h = absurd (omega arith)
split_last zero (x ∷ xs) h = ([], x, refl, refl)
split_last (suc n) (x ∷ xs) h =
    let (front, a, split, ends) = split_last n xs (omega arith) in
    (x ∷ front, a, cc (split), ground (arith, ends))

pub for_each-shown :
    (xs : List Activity) (w : World)
    → All (λ (a : Activity). is_some a.id ≡ true) xs
    → for_each activity_response xs w ≡ (ok (map shown xs), w)
unfolding for_each activity_response
for_each-shown [] w h = refl
for_each-shown (x ∷ xs) w (named, h) = ground (arith, for_each-shown xs w h)

pub All-suffix {κ} :
    (P : Activity → Type κ) (front rest : List Activity) → All P (front ++ rest) → All P rest
All-suffix P [] rest h = h
All-suffix P (x ∷ front) rest (p, h) = All-suffix P front rest h

pub All-take {κ} :
    (P : Activity → Type κ) (n : ℕ) (xs : List Activity) → All P xs → All P (take n xs)
All-take P zero xs h = tt
All-take P (suc n) [] h = tt
All-take P (suc n) (x ∷ xs) (p, h) = (p, All-take P n xs h)

pub take_all : (n : ℕ) (xs : List Activity) → length xs ≤ n → take n xs ≡ xs
take_all zero [] h = refl
take_all zero (x ∷ xs) h = absurd (omega arith)
take_all (suc n) [] h = refl
take_all (suc n) (x ∷ xs) h = cc (take_all n xs (omega arith))

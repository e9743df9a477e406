-- ===== src/Prelude/Dict.antt =====
-- A Python dict keyed by object ids, in insertion order.
use Prim.Native.Nat.{ℕ}
use mathlib.Core.Path.{◌≡◌, refl}
use mathlib.Core.Logic.{◌≢◌, ◌⊎◌}
use mathlib.Core.Option.{Option, none, some}
use mathlib.Core.List.{List, [], ◌∷◌}
use native.Mathlib.Omega.{arith}
use mathlib.Core.Bool.{Bool, true, false}
use mini_company.Prelude.Lists.{All, find_first, find_first-All}
use mini_company.Prelude.Tests.{◌==◌, if◌then◌else◌}

abbrev pub Dict {ℓ} : Type ℓ → Type ℓ
Dict V = List (ℕ × V)

module _ {ℓ} {V : Type ℓ} where
  -- `d.get(k)`
  unfoldable pub lookup : ℕ → Dict V → Option V
  lookup k [] = none
  lookup k ((j, v) ∷ d) = if j == k then some v else lookup k d

  -- `d[k] = v`
  unfoldable pub insert : ℕ → V → Dict V → Dict V
  insert k v [] = (k, v) ∷ []
  insert k v ((j, w) ∷ d) = if j == k then (k, v) ∷ d else (j, w) ∷ insert k v d

  -- `d.pop(k, None)`: every entry of the key goes, and a dict has one at most.
  unfoldable pub remove : ℕ → Dict V → Dict V
  remove k [] = []
  remove k ((j, w) ∷ d) = if j == k then remove k d else (j, w) ∷ remove k d

  -- `d.values()`
  unfoldable pub values : Dict V → List V
  values [] = []
  values ((j, v) ∷ d) = v ∷ values d

  pub lookup-insert :
      (k j : ℕ) (v : V) (d : Dict V)
      → lookup j (insert k v d) ≡ (if k == j then some v else lookup j d)
  unfolding lookup insert
  lookup-insert k j v [] = refl
  lookup-insert k j v ((i, w) ∷ d) = ground (arith, lookup-insert k j v d)

  pub lookup-remove :
      (k j : ℕ) (d : Dict V) → lookup j (remove k d) ≡ (if k == j then none else lookup j d)
  unfolding lookup remove
  lookup-remove k j [] = ground arith
  lookup-remove k j ((i, w) ∷ d) = ground (arith, lookup-remove k j d)

module _ {V : Type 0} where
  -- What is found after a write is the value written or an entry from before.
  pub insert_cases :
      (k i : ℕ) (v u : V) (d : Dict V)
      → lookup i (insert k v d) ≡ some u
      → (k ≡ i) × (v ≡ u) ⊎ (k ≢ i) × (lookup i d ≡ some u)
  insert_cases k i v u d h = ground (arith, lookup-insert k i v d)

  pub remove_cases :
      (k i : ℕ) (u : V) (d : Dict V)
      → lookup i (remove k d) ≡ some u
      → (k ≢ i) × (lookup i d ≡ some u)
  remove_cases k i u d h = ground (arith, lookup-remove k i d)

  -- No key stands twice in a dict.
  abbrev pub IsKeyed : Dict V → Type 0
  IsKeyed [] = Unit
  IsKeyed ((k, v) ∷ d) = (lookup k d ≡ none) × IsKeyed d

  pub insert-IsKeyed : (k : ℕ) (v : V) (d : Dict V) → IsKeyed d → IsKeyed (insert k v d)
  unfolding insert lookup
  insert-IsKeyed k v [] h = (refl, tt)
  insert-IsKeyed k v ((j, w) ∷ d) h =
      ground (arith, insert-IsKeyed k v d h.1, lookup-insert k j v d)

  pub remove-IsKeyed : (k : ℕ) (d : Dict V) → IsKeyed d → IsKeyed (remove k d)
  unfolding remove
  remove-IsKeyed k [] h = tt
  remove-IsKeyed k ((j, w) ∷ d) h = ground (arith, remove-IsKeyed k d h.1, lookup-remove k j d)

  -- What holds of every value that is found holds of all the values.
  pub values-All :
      (P : V → Type 0) (d : Dict V)
      → IsKeyed d
      → ((i : ℕ) (v : V) → lookup i d ≡ some v → P v)
      → All P (values d)
  unfolding values lookup
  values-All P [] h p = tt
  values-All P ((j, v) ∷ d) h p =
      (p j v (ground arith), values-All P d h.1 (λ i u found. p i u (ground (arith, h.0))))

  pub find_first-none :
      (p : V → Bool) (d : Dict V) (i : ℕ) (v : V)
      → find_first p (values d) ≡ none
      → lookup i d ≡ some v
      → p v ≡ false
  unfolding values lookup
  find_first-none p [] i v absent found = cc
  find_first-none p ((j, w) ∷ d) i v absent found = ground (arith, find_first-none p d i v)

  -- The first value that passes a test is stored, and passes it.
  pub find_first-lookup :
      (p : V → Bool) (d : Dict V) (v : V)
      → IsKeyed d
      → find_first p (values d) ≡ some v
      → ((i : ℕ) × (lookup i d ≡ some v)) × (p v ≡ true)
  find_first-lookup p d v keyed e =
      find_first-All (λ u. (i : ℕ) × (lookup i d ≡ some u)) p (values d) v
        (values-All _ d keyed (λ i u found. (i, found))) e

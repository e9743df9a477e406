-- ===== src/Employees/Desk/Free.antt =====
-- `next_free_desk` finds a desk, it is free, and it is the first free one.
use mini_company.Prelude.{
  ℕ, zero, suc, ◌+◌, ◌≤◌, ◌<◌, ◌≡◌, ◌≢◌, inl, inr, refl, true, false, List, [], ◌∷◌, length, keep,
  ◌==◌, not, Bool-cases, arith,
}
use mini_company.Employees.Domain.{DeskPosition}
use mini_company.Employees.Desk.{desk_for_slot, same_place, is_taken, search_desk, next_free_desk}

-- Different slots have different desks.
desk_for_slot-injective : (i j : ℕ) → same_place (desk_for_slot i) (desk_for_slot j) ≡ true → i ≡ j
unfolding desk_for_slot same_place
desk_for_slot-injective i j h = ground arith

same_place_both :
    (d a b : DeskPosition) → same_place d a ≡ true → same_place d b ≡ true → same_place a b ≡ true
unfolding same_place
same_place_both d a b h k = ground arith

-- The desks that do not stand at a place.
abbrev elsewhere : DeskPosition → List DeskPosition → List DeskPosition
elsewhere place occupied = keep (λ d. not (same_place d place)) occupied

length-elsewhere-le :
    (place : DeskPosition) (occupied : List DeskPosition)
    → length (elsewhere place occupied) ≤ length occupied
length-elsewhere-le place [] = omega arith
length-elsewhere-le place (d ∷ ds) = ground (arith, length-elsewhere-le place ds)

length-elsewhere-lt :
    (place : DeskPosition) (occupied : List DeskPosition)
    → is_taken occupied place ≡ true
    → length (elsewhere place occupied) < length occupied
unfolding is_taken
length-elsewhere-lt place [] h = cc
length-elsewhere-lt place (d ∷ ds) h =
    ground (arith, length-elsewhere-le place ds, length-elsewhere-lt place ds)

taken-elsewhere :
    (m k : ℕ) (occupied : List DeskPosition)
    → m ≢ k
    → is_taken occupied (desk_for_slot m) ≡ true
    → is_taken (elsewhere (desk_for_slot k) occupied) (desk_for_slot m) ≡ true
unfolding is_taken
taken-elsewhere m k [] other h = h
taken-elsewhere m k (d ∷ ds) other h = ground (
  arith,
  taken-elsewhere m k ds other,
  same_place_both d (desk_for_slot m) (desk_for_slot k),
  desk_for_slot-injective m k,
)

-- As many slots as are taken from the first on, so many desks are occupied.
slots-le-length :
    (n : ℕ) (occupied : List DeskPosition)
    → ((m : ℕ) → m < n → is_taken occupied (desk_for_slot m) ≡ true)
    → n ≤ length occupied
slots-le-length zero occupied h = omega arith
slots-le-length (suc n) occupied h = omega (
  arith,
  length-elsewhere-lt (desk_for_slot n) occupied (h n (omega arith)),
  slots-le-length n (elsewhere (desk_for_slot n) occupied)
      (λ m lt. taken-elsewhere m n occupied (omega arith) (h m (omega arith))),
)

-- The desk of a slot that nobody sits at, while every slot before it is taken.
pub record IsFirstFree (occupied : List DeskPosition) (desk : DeskPosition) : Type 0 where
  pub slot : ℕ
  pub at : desk ≡ desk_for_slot slot
  pub free : is_taken occupied (desk_for_slot slot) ≡ false
  pub first : (m : ℕ) → m < slot → is_taken occupied (desk_for_slot m) ≡ true
  pub near : slot ≤ length occupied

taken_up_to :
    (slot : ℕ) (occupied : List DeskPosition)
    → ((m : ℕ) → m < slot → is_taken occupied (desk_for_slot m) ≡ true)
    → is_taken occupied (desk_for_slot slot) ≡ true
    → (m : ℕ) → m < suc slot
    → is_taken occupied (desk_for_slot m) ≡ true
taken_up_to slot occupied before now m lt = elim (Bool-cases (m == slot)) [
  | inl here ↦ let same : m ≡ slot = ground arith in rw same now
  | inr earlier ↦ before m (ground arith)
]

search_desk-IsFirstFree :
    (fuel slot : ℕ) (occupied : List DeskPosition)
    → ((m : ℕ) → m < slot → is_taken occupied (desk_for_slot m) ≡ true)
    → slot + fuel ≡ length occupied
    → IsFirstFree occupied (search_desk fuel occupied slot)
unfolding search_desk
search_desk-IsFirstFree zero slot occupied before enough =
    elim (Bool-cases (is_taken occupied (desk_for_slot slot))) [
      | inl taken ↦ absurd (
          omega
            (arith, slots-le-length (suc slot) occupied (taken_up_to slot occupied before taken)))
      | inr free ↦ record {
        slot = slot;
        at = refl;
        free = free;
        first = before;
        near = omega arith;
      }
    ]
search_desk-IsFirstFree (suc fuel) slot occupied before enough =
    elim (Bool-cases (is_taken occupied (desk_for_slot slot))) [
      | inl taken ↦ rw taken (
          search_desk-IsFirstFree fuel (suc slot) occupied (taken_up_to slot occupied before taken)
            (omega arith))
      | inr free ↦
          rw free
            (record { slot = slot; at = refl; free = free; first = before; near = omega arith })
    ]

-- Whatever desks are occupied, `next_free_desk` returns a desk of the layout at which nobody sits,
-- every slot before its slot is taken, and its slot is at most the number of occupied desks (so
-- the loop ends).
pub next_free_desk-IsFirstFree :
    (occupied : List DeskPosition) → IsFirstFree occupied (next_free_desk occupied)
unfolding next_free_desk
next_free_desk-IsFirstFree occupied =
    search_desk-IsFirstFree (length occupied) 0 occupied (λ m h. absurd (omega arith)) (omega arith)

-- ===== src/Employees/Desk.antt =====
-- backend/src/employees/desk.py. Coordinates are counted in millionths, so `_EPSILON` is one and
-- two coordinates that lie nearer than it are the same.
pub mod Free
use mini_company.Prelude.{
  ℕ, zero, suc, ◌+◌, ◌*◌, ◌/◌, ◌%◌, Bool, true, List, ◌&&◌, map, length, any, ◌==◌, if◌then◌else◌,
}
use mini_company.Prelude.Int.{ℤ, pos, negate, eq_ℤ}
use mini_company.Employees.Domain.{DeskPosition}

-- `_SPACING`, `_ROW_DEPTH`, `_DESKS_PER_ROW`
abbrev pub spacing : ℕ
spacing = 2000000

abbrev pub row_depth : ℕ
row_depth = 2500000

abbrev pub desks_per_row : ℕ
desks_per_row = 5

-- `desk_for_slot`
unfoldable pub desk_for_slot : ℕ → DeskPosition
unfolding negate
desk_for_slot slot =
    let row = slot / desks_per_row in
    let column = slot % desks_per_row in
    let step = (column + 1) / 2 in
    record {
      x = if column % 2 == 1 then pos (step * spacing) else negate (pos (step * spacing));
      y = pos 0;
      z = negate (pos (row * row_depth));
    }

-- `abs(x - candidate.x) < _EPSILON and abs(z - candidate.z) < _EPSILON`
unfoldable pub same_place : DeskPosition → DeskPosition → Bool
same_place desk candidate = eq_ℤ desk.x candidate.x && eq_ℤ desk.z candidate.z

unfoldable pub is_taken : List DeskPosition → DeskPosition → Bool
unfolding same_place
is_taken occupied candidate = any (λ desk. same_place desk candidate) occupied

-- The `while True` loop of `next_free_desk`, from a slot on. The fuel is the number of slots that
-- may be found taken.
unfoldable pub search_desk : ℕ → List DeskPosition → ℕ → DeskPosition
unfolding desk_for_slot is_taken
search_desk zero occupied slot = desk_for_slot slot
search_desk (suc fuel) occupied slot =
    let later = search_desk fuel occupied (suc slot) in
    if is_taken occupied (desk_for_slot slot) then later else desk_for_slot slot

-- `next_free_desk`
unfoldable pub next_free_desk : List DeskPosition → DeskPosition
unfolding search_desk
next_free_desk occupied = search_desk (length occupied) occupied 0

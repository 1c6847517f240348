-- ===== src/Map/Position.antt =====
-- source/position.h: a point of the map, the place of a thing there, and their comparisons. The
-- coordinates are of type int; their differences are exact, since maps are far smaller.
use evolution078ots.Prelude.{ℕ, Bool, true, false, not, ◌&&◌, ◌||◌, if◌then◌else◌}
use evolution078ots.Prelude.Int.{ℤ, pos, ltb_ℤ, eq_ℤ, ◌-ℤ◌, pos_part, neg_part}
pub mod Order
mod Examples

pub record Position : Type 0 where
  pub x : ℤ
  pub y : ℤ
  pub z : ℤ

-- The constructor without arguments.
unfoldable pub start_position : Position
start_position = record { x = pos 31; y = pos 31; z = pos 7 }

unfoldable pub less : Position → Position → Bool
less p q =
    if ltb_ℤ p.z q.z
    then true
    else if ltb_ℤ q.z p.z
    then false
    else if ltb_ℤ p.y q.y
    then true
    else if ltb_ℤ q.y p.y
    then false
    else if ltb_ℤ p.x q.x
    then true
    else if ltb_ℤ q.x p.x
    then false
    else false

-- operator>.
unfoldable pub greater : Position → Position → Bool
greater p q = not (less p q)

unfoldable pub equal : Position → Position → Bool
equal p q = if eq_ℤ q.x p.x && (eq_ℤ q.y p.y && eq_ℤ q.z p.z) then true else false

unfoldable pub differs : Position → Position → Bool
differs p q = if eq_ℤ q.x p.x && (eq_ℤ q.y p.y && eq_ℤ q.z p.z) then false else true

unfoldable pub minus : Position → Position → Position
minus p q = record { x = p.x -ℤ q.x; y = p.y -ℤ q.y; z = p.z -ℤ q.z }

-- `std::abs(a - b) > delta`.
abbrev pub apart : ℕ → ℤ → ℤ → Bool
apart delta a b = ltb_ℤ (pos delta) (a -ℤ b) || ltb_ℤ (pos delta) (b -ℤ a)

-- areInRange<deltax, deltay, deltaz>.
unfoldable pub are_in_range : ℕ → ℕ → ℕ → Position → Position → Bool
are_in_range dx dy dz p q =
    if apart dx p.x q.x || (apart dy p.y q.y || apart dz p.z q.z) then false else true

-- class PositionEx, a Position with the index in the stack of its tile.
pub record PositionEx : Type 0 where
  pub position : Position
  pub stackpos : ℤ

unfoldable pub equal_ex : PositionEx → PositionEx → Bool
unfolding equal
equal_ex p q = if equal p.position q.position && eq_ℤ q.stackpos p.stackpos then true else false

unfoldable pub differs_ex : PositionEx → PositionEx → Bool
unfolding equal
differs_ex p q =
    if equal p.position q.position && not (eq_ℤ q.stackpos p.stackpos) then false else true

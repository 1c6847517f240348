-- ===== src/Map/Position/Order.antt =====
-- The comparisons of positions: an order by floor, row and column, and ranges.
use evolution078ots.Prelude.{ℕ, ◌+◌, ◌<◌, Bool, true, false, not, ◌≡◌, ◌⊎◌, ◌↔◌, arith, inl, inr}
use evolution078ots.Prelude.Int.{ℤ, pos_part, neg_part}
use evolution078ots.Map.Position.{
  Position, less, greater, equal, differs, are_in_range, PositionEx, equal_ex, differs_ex,
}

-- Which of two Boolean tests hold.
abbrev pub Only : Bool → Bool → Bool → Type 0
Only a b c = (a ≡ true) × (b ≡ false) × (c ≡ false)

abbrev pub Orders : Position → Position → Type 0
Orders p q =
    (Only (less p q) (equal p q) (less q p) × (greater p q ≡ false) × (differs p q ≡ true))
    ⊎ ((Only (equal p q) (less p q) (less q p) × (greater p q ≡ true) × (differs p q ≡ false))
        ⊎ (Only (less q p) (less p q) (equal p q) × (greater p q ≡ true) × (differs p q ≡ true)))

-- Of two positions one is smaller or they are equal, and only one of these holds; operator> holds where
-- the first is not smaller, also of equal positions; and operator!= is the opposite of operator==.
pub less_lem : (p q : Position) → Orders p q
unfolding less equal greater differs
less_lem p q = ground arith

abbrev Below : ℤ → ℤ → Type 0
Below a b = pos_part a + neg_part b < pos_part b + neg_part a

abbrev Level : ℤ → ℤ → Type 0
Level a b = pos_part a + neg_part b ≡ pos_part b + neg_part a

-- The order of floors, then of rows, then of columns.
abbrev Before : Position → Position → Type 0
Before p q = Below p.z q.z ⊎ (Level p.z q.z × (Below p.y q.y ⊎ (Level p.y q.y × Below p.x q.x)))

less-Before : (p q : Position) → less p q ≡ true → Before p q
unfolding less
less-Before p q h = ground (arith, h)

Before-less : (p q : Position) → Before p q → less p q ≡ true
unfolding less
Before-less p q h = ground (arith, h)

Below-trans : (a b c : ℤ) → Below a b → Below b c → Below a c
Below-trans a b c h h' = omega (arith, h, h')

Below-Level : (a b c : ℤ) → Below a b → Level b c → Below a c
Below-Level a b c h h' = omega (arith, h, h')

Level-Below : (a b c : ℤ) → Level a b → Below b c → Below a c
Level-Below a b c h h' = omega (arith, h, h')

Level-trans : (a b c : ℤ) → Level a b → Level b c → Level a c
Level-trans a b c h h' = omega (arith, h, h')

-- A coordinate decides, or leaves it to what follows.
decide :
    (a b c : ℤ) {P Q R : Type 0}
    → (P → Q → R)
    → Below a b ⊎ (Level a b × P)
    → Below b c ⊎ (Level b c × Q)
    → Below a c ⊎ (Level a c × R)
decide a b c next (inl h) (inl h') = inl (Below-trans a b c h h')
decide a b c next (inl h) (inr (h', q)) = inl (Below-Level a b c h h')
decide a b c next (inr (h, p)) (inl h') = inl (Level-Below a b c h h')
decide a b c next (inr (h, p)) (inr (h', q)) = inr (Level-trans a b c h h', next p q)

-- The order of positions is transitive.
pub less_trans : (p q r : Position) → less p q ≡ true → less q r ≡ true → less p r ≡ true
less_trans p q r h h' = Before-less p r (
    decide p.z q.z r.z (decide p.y q.y r.y (Below-trans p.x q.x r.x)) (less-Before p q h)
      (less-Before q r h'))

pub equal_iff : (p q : Position) → (equal p q ≡ true) ↔ (p ≡ q)
unfolding equal
equal_iff p q = ground arith

pub are_in_range_sym :
    (dx dy dz : ℕ) (p q : Position) → are_in_range dx dy dz p q ≡ are_in_range dx dy dz q p
unfolding are_in_range
are_in_range_sym dx dy dz p q = ground arith

abbrev pub SkewedAt : PositionEx → PositionEx → Type 0
SkewedAt p q = (differs_ex p q ≡ not (equal_ex p q)) ↔ (equal p.position q.position ≡ false)

-- Of places in stacks, operator!= is the opposite of operator== exactly where the positions differ.
pub differs_ex_lem : (p q : PositionEx) → SkewedAt p q
unfolding differs_ex equal_ex
differs_ex_lem p q = ground arith

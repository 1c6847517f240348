-- ===== src/FileLoader/Cache/Offsets.antt =====
-- Positions, bases and offsets of the cache, as numbers.
use evolution078ots.Prelude.{ℕ, ◌+◌, ◌-◌, ◌≤◌, ◌<◌, true, ltb, ◌≡◌, arith}

pub rest_of : (a b : ℕ) → a ≤ b → a + (b - a) ≡ b
rest_of a b h = omega (arith, h)

pub short_le : (a b : ℕ) → a < b → a ≤ b
short_le a b h = omega (arith, h)

pub at_least_one : (a b : ℕ) → a ≡ b → 1 ≤ b → 1 ≤ a
at_least_one a b e h = omega (arith, e, h)

pub moved : (k a' a pos : ℕ) → a' ≡ a → a + k ≡ pos → a' + k ≡ pos
moved k a' a pos e h = omega (arith, e, h)

pub moved_back : (k a' a pos : ℕ) → a' ≡ a → a + k ≡ pos → pos ≡ k + a'
moved_back k a' a pos e h = omega (arith, e, h)

pub inside : (k m n : ℕ) → ltb k m ≡ true → m ≤ n → k < n
inside k m n e h = ground (arith, e, h)

pub rest_of_same : (a a' b : ℕ) → a' ≡ a → a ≤ b → a' + (b - a') ≡ b
rest_of_same a a' b e h = omega (arith, e, h)

pub rest_small : (a a' b n : ℕ) → a' ≡ a → b - a < n → b - a' < n
rest_small a a' b n e h = omega (arith, e, h)

-- ===== src/Prelude/Bits.antt =====
-- The bits of numbers, for & and | of unsigned integers.
use Prim.Native.Nat.{ℕ, zero, suc, ◌+◌, ◌*◌, ◌/◌, ◌%◌, ◌≤◌, ◌<◌, min, max}
use mathlib.Core.Path.{◌≡◌, refl, ap, ◌∙◌}
use native.Mathlib.Omega.{arith}
use evolution078ots.Prelude.Tests.{◌==◌, if◌then◌else◌}

-- `a & b` and `a | b` of numbers of `n` bits.
unfoldable pub bit_and : ℕ → ℕ → ℕ → ℕ
bit_and zero a b = 0
bit_and (suc n) a b = min (a % 2) (b % 2) + 2 * bit_and n (a / 2) (b / 2)

unfoldable pub bit_or : ℕ → ℕ → ℕ → ℕ
bit_or zero a b = 0
bit_or (suc n) a b = max (a % 2) (b % 2) + 2 * bit_or n (a / 2) (b / 2)

-- The number with one bit, and the bit of a number.
unfoldable pub bit_of : ℕ → ℕ
bit_of zero = 1
bit_of (suc k) = 2 * bit_of k

unfoldable pub test : ℕ → ℕ → ℕ
test zero m = m % 2
test (suc k) m = test k (m / 2)

half : (x : ℕ) → 2 * x / 2 ≡ x
half x = omega arith

half_sum : (x y : ℕ) → x ≤ 1 → (x + 2 * y) / 2 ≡ y
half_sum x y h = omega (arith, h)

bits_small : (a b : ℕ) → max (a % 2) (b % 2) ≤ 1
bits_small a b = ground arith

bit_and-zero : (n m : ℕ) → bit_and n 0 m ≡ 0
unfolding bit_and
bit_and-zero zero m = refl
bit_and-zero (suc n) m = omega (arith, bit_and-zero n (m / 2))

pub bit_and-bit_of : (n k m : ℕ) → k < n → (bit_and n (bit_of k) m == 0) ≡ (test k m == 0)
unfolding bit_and bit_of test
bit_and-bit_of zero k m h = absurd (omega (arith, h))
bit_and-bit_of (suc n) zero m h = ground (arith, bit_and-zero n (m / 2))
bit_and-bit_of (suc n) (suc k) m h =
    rw (half (bit_of k)) (ground (arith, bit_and-bit_of n k (m / 2), h))

test-bit_or_zero : (n j m : ℕ) → j < n → test j (bit_or n m 0) ≡ test j m
unfolding bit_or test
test-bit_or_zero zero j m h = absurd (omega (arith, h))
test-bit_or_zero (suc n) zero m h = ground arith
test-bit_or_zero (suc n) (suc j) m h =
    ap (test j) (half_sum (max (m % 2) (0 % 2)) (bit_or n (m / 2) 0) (bits_small m 0))
    ∙ test-bit_or_zero n j (m / 2) (omega (arith, h))

pub test-bit_or :
    (n j k m : ℕ)
    → j < n
    → k < n
    → test j (bit_or n m (bit_of k)) ≡ (if j == k then 1 else test j m)
unfolding bit_or bit_of test
test-bit_or zero j k m h i = absurd (omega (arith, h))
test-bit_or (suc n) zero zero m h i = ground arith
test-bit_or (suc n) zero (suc k) m h i = ground arith
test-bit_or (suc n) (suc j) zero m h i =
    ap (test j) (half_sum (max (m % 2) (1 % 2)) (bit_or n (m / 2) 0) (bits_small m 1))
    ∙ test-bit_or_zero n j (m / 2) (omega (arith, h))
    ∙ ground arith
test-bit_or (suc n) (suc j) (suc k) m h i =
    ap (test j) (
      half_sum (max (m % 2) (2 * bit_of k % 2)) (bit_or n (m / 2) (2 * bit_of k / 2))
        (bits_small m (2 * bit_of k)))
    ∙ ap (λ x. test j (bit_or n (m / 2) x)) (half (bit_of k))
    ∙ test-bit_or n j k (m / 2) (omega (arith, h)) (omega (arith, i))
    ∙ ground arith

bit_of_positive : (k : ℕ) → 1 ≤ bit_of k
unfolding bit_of
bit_of_positive zero = omega arith
bit_of_positive (suc k) = omega (arith, bit_of_positive k)

pub bit_of_same : (j k : ℕ) → (bit_of j == bit_of k) ≡ (j == k)
unfolding bit_of
bit_of_same zero zero = refl
bit_of_same zero (suc k) = ground (arith, bit_of_positive k)
bit_of_same (suc j) zero = ground (arith, bit_of_positive j)
bit_of_same (suc j) (suc k) = ground (arith, bit_of_same j k)

-- ===== src/Condition/Dealt/Turns.antt =====
-- How many executions and ticks the damage of a list takes.
use evolution078ots.Prelude.{
  ℕ, zero, suc, ◌+◌, ◌-◌, ◌*◌, ◌/◌, ◌^◌, ◌≤◌, ◌<◌, max, ltb, Bool, true, false, List, [], ◌∷◌, ◌≡◌,
  refl, sym, ap, subst, ◌∙◌, ◌⊎◌, arith, Bool-cases, inl, inr, All,
}
use evolution078ots.Condition.{Interval}
use evolution078ots.Condition.Ticks.{word_minus, is_positive, is_nil}
use evolution078ots.Condition.Dealt.{passed, lives, counted, sooner, anew}
use native.Mathlib.Nat.{
  add-div_right, mul-le-mul_right, le-div_iff_mul-le, div-mul-le_self, add-mul, one-mul, one-le-mul,
}

-- The executions outside a field that a time takes, with an interval `t`, and those of a list.
abbrev pub executions : ℕ → ℕ → ℕ
executions t a = max 1 ((a + (t - 1)) / t)

unfoldable pub turns : ℕ → List Interval → ℕ
turns t [] = 0
turns t (i ∷ is) = executions t i.time_left + turns t is

-- The same if the first time may be the interval again.
unfoldable pub most_turns : ℕ → List Interval → ℕ
most_turns t [] = 0
most_turns t (i ∷ is) = max (executions t i.time_left) (executions t i.interval) + most_turns t is

-- The ticks that executions take off a condition with damage left.
abbrev pub spent : List (Bool × ℕ) → ℕ
spent [] = 0
spent ((true, t) ∷ ts) = t + spent ts
spent ((false, t) ∷ ts) = spent ts

-- The condition lasts for ever or for `m` ticks.
abbrev pub Lasts : ℕ → ℕ → Type 0
Lasts w m = (w ≡ 2 ^ 32 - 1) ⊎ ((m ≤ w) × (w < 2 ^ 31))

-- The times are numbers that are not negative.
abbrev pub IsTimed : List Interval → Type 0
IsTimed = All λ i. (i.time_left < 2 ^ 31) × (i.interval < 2 ^ 31)

abbrev pub AreShort : List (Bool × ℕ) → Type 0
AreShort = All λ e. e.1 < 2 ^ 31

abbrev pub repeat : ℕ → ℕ → List (Bool × ℕ)
repeat zero t = []
repeat (suc n) t = (true, t) ∷ repeat n t

pub passed-Lasts :
    (w t m m' : ℕ)
    → t < 2 ^ 31
    → m' + t ≤ m
    → Lasts w m
    → ((lives w t ≡ true) × Lasts (passed w t) m') ⊎ (m' ≡ 0)
passed-Lasts w t m m' short le (inl forever) =
    inl (ground (arith, forever), inl (ground (arith, forever)))
passed-Lasts w t m m' short le (inr (enough, small)) = elim (Bool-cases (ltb t w)) [
  | inl more ↦ inl (
    ground (arith, more, small, short),
    inr (ground (arith, more, small, short, le, enough), ground (arith, more, small, short)),
  )
  | inr less ↦ inr (ground (arith, less, le, enough))
]

pub word_minus-less :
    (a t : ℕ)
    → t < 2 ^ 31
    → a < 2 ^ 31
    → is_positive (word_minus a t) ≡ true
    → (word_minus a t ≡ a - t) × (t < a)
word_minus-less a t short small later =
    (ground (arith, short, small, later), ground (arith, short, small, later))

pub over : (x t y : ℕ) → 1 ≤ t → y ≡ x + t → y / t ≡ x / t + 1
over x t y some_time e = ap (λ z. z / t) e ∙ add-div_right x some_time

fewer : (p q r : ℕ) → p ≡ q + 1 → q ≡ r + 1 → max 1 q + 1 ≤ max 1 p
fewer p q r e f = omega (arith, e, f)

sooner_executions :
    (t a : ℕ)
    → 1 ≤ t
    → t < 2 ^ 31
    → a < 2 ^ 31
    → is_positive (word_minus a t) ≡ true
    → executions t (word_minus a t) + 1 ≤ executions t a
sooner_executions t a some_time short small later =
    let (e, less) = word_minus-less a t short small later in
    subst (λ b. executions t b + 1 ≤ executions t a) (sym e)
      (fewer ((a + (t - 1)) / t) ((a - t + (t - 1)) / t) ((a - t - 1) / t)
        (over (a - t + (t - 1)) t (a + (t - 1)) some_time (omega (arith, less)))
        (over (a - t - 1) t (a - t + (t - 1)) some_time (omega (arith, less, some_time))))

at_least_once : (t a : ℕ) → 1 ≤ executions t a
at_least_once t a = omega arith

-- The ticks of one more execution.
pub one_more : (p q t : ℕ) → p + 1 ≤ q → p * t + t ≤ q * t
one_more p q t h = omega (arith, mul-le-mul_right t h, add-mul p 1 t, one-mul t)

pub fewer_turns : (t : ℕ) (i : Interval) (is : List Interval) → turns t is + 1 ≤ turns t (i ∷ is)
unfolding turns
fewer_turns t i is = omega (arith, at_least_once t i.time_left)

one_le_times : (n t : ℕ) → 1 ≤ n → 1 ≤ t → ¬ (n * t ≡ 0)
one_le_times n t h k e = absurd (omega (arith, e, one-le-mul h k))

pub no_turns : (t : ℕ) (list : List Interval) → 1 ≤ t → turns t list * t ≡ 0 → list ≡ []
no_turns t [] some_time e = refl
no_turns t (i ∷ is) some_time e =
    absurd (one_le_times (turns t (i ∷ is)) t (omega (arith, fewer_turns t i is)) some_time e)

-- A step outside a field takes a turn, and ticks, of which enough are left.
pub turns-sooner :
    (t : ℕ) (i : Interval) (is : List Interval)
    → 1 ≤ t
    → t < 2 ^ 31
    → i.time_left < 2 ^ 31
    → is_positive (word_minus i.time_left t) ≡ true
    → turns t (sooner t i ∷ is) + 1 ≤ turns t (i ∷ is)
unfolding turns
turns-sooner t i is some_time short small later =
    omega (arith, sooner_executions t i.time_left some_time short small later)

pub sooner_small :
    (t a : ℕ)
    → t < 2 ^ 31
    → a < 2 ^ 31
    → is_positive (word_minus a t) ≡ true
    → word_minus a t < 2 ^ 31
sooner_small t a short small later = omega (arith, word_minus-less a t short small later, small)

-- What the executions before may leave to do.
pub turns-most : (t : ℕ) (list : List Interval) → turns t list ≤ most_turns t list
unfolding turns most_turns
turns-most t [] = omega arith
turns-most t (i ∷ is) = omega (arith, turns-most t is)

pub Lasts-less : (w m m' : ℕ) → m' ≤ m → Lasts w m → Lasts w m'
Lasts-less w m m' le (inl forever) = inl forever
Lasts-less w m m' le (inr (enough, small)) = inr (omega (arith, le, enough), small)

some_turns : (t : ℕ) (i : Interval) (is : List Interval) → 1 ≤ most_turns t (i ∷ is)
unfolding most_turns
some_turns t i is = omega (arith, at_least_once t i.time_left)

pub no_most_turns : (t : ℕ) (list : List Interval) → 1 ≤ t → most_turns t list * t ≡ 0 → list ≡ []
no_most_turns t [] some_time e = refl
no_most_turns t (i ∷ is) some_time e =
    absurd (one_le_times (most_turns t (i ∷ is)) t (some_turns t i is) some_time e)

-- What an execution leaves needs no more turns.
max_1 : (p q : ℕ) → p ≤ q → max 1 p ≤ max 1 q
max_1 p q h = omega (arith, h)

executions-le : (t a b : ℕ) → 1 ≤ t → a ≤ b → executions t a ≤ executions t b
executions-le t a b some_time le =
    max_1 _ _ ((le-div_iff_mul-le some_time).1 (omega (arith, le, div-mul-le_self (a + (t - 1)) t)))

max_le : (p q r : ℕ) → p ≤ q → max p r ≤ max q r
max_le p q r h = omega (arith, h)

pub most_sooner :
    (t s : ℕ) (i : Interval) (is : List Interval)
    → 1 ≤ t
    → word_minus i.time_left s ≤ i.time_left
    → most_turns t (sooner s i ∷ is) ≤ most_turns t (i ∷ is)
unfolding most_turns
most_sooner t s i is some_time le =
    let h =
      max_le _ _ (executions t i.interval)
        (executions-le t (word_minus i.time_left s) i.time_left some_time le) in
    omega (arith, h)

pub most_anew :
    (t : ℕ) (i : Interval) (is : List Interval) → most_turns t (anew i ∷ is) ≤ most_turns t (i ∷ is)
unfolding most_turns
most_anew t i is = omega arith

pub most_rest :
    (t : ℕ) (i : Interval) (is : List Interval) → most_turns t is ≤ most_turns t (i ∷ is)
unfolding most_turns
most_rest t i is = omega arith

pub zero_of_sum : (a b : ℕ) → a + b ≡ 0 → b ≡ 0
zero_of_sum a b e = omega (arith, e)

pub spent_counted :
    (ts : List (Bool × ℕ)) (removes : Bool) (s x y : ℕ) (list : List Interval)
    → is_nil list ≡ false
    → x ≤ y
    → spent ts + x + counted removes s list ≤ spent ((removes, s) ∷ ts) + y
spent_counted ts true s x y (i ∷ is) some le = omega (arith, le)
spent_counted ts false s x y (i ∷ is) some le = omega (arith, le)
spent_counted ts removes s x y [] some le = absurd cc

pub counted_small :
    (removes : Bool) (s : ℕ) (list : List Interval) → s < 2 ^ 31 → counted removes s list < 2 ^ 31
counted_small removes s list h = ground (arith, h)

-- ===== src/Condition/Dealt/Whole.antt =====
-- Damage over time is dealt in full, if the condition lasts long enough.
use evolution078ots.Prelude.{
  ℕ, zero, suc, ◌+◌, ◌*◌, ◌^◌, ◌≤◌, ◌<◌, Bool, true, false, List, [], ◌∷◌, ◌++◌, if◌then◌else◌, ◌≡◌,
  refl, sym, ap, subst, ◌∙◌, arith, inl, inr,
}
use mathlib.Core.List.{append-nil}
use evolution078ots.Condition.{Condition, Damage, Interval}
use evolution078ots.Condition.Ticks.{word_minus, is_positive, Effect, do_damage, tick_damage}
use evolution078ots.Condition.Dealt.{
  Outcome, run, pass, passed, lives, counted, after, run-pass, tick_damage-cases, sooner, anew,
}
use evolution078ots.Condition.Dealt.Order.{
  IsRepeated, values, damages_of, in_field, pass-IsRepeated,
}
use native.Mathlib.Nat.{mul-le-mul_right}
use evolution078ots.Condition.Dealt.Turns.{
  turns, most_turns, spent, Lasts, IsTimed, AreShort, repeat, passed-Lasts, word_minus-less,
  one_more, fewer_turns, no_turns, turns-sooner, sooner_small, turns-most, Lasts-less,
  no_most_turns, most_sooner, most_anew, most_rest, zero_of_sum, spent_counted, counted_small,
}

contradiction : (b : Bool) → b ≡ true → ¬ (b ≡ false)
contradiction b e f = absurd cc

left_of :
    (b : Bool) (list : List Interval) (dealt : List Effect) (rest : Outcome)
    → (b ≡ true → rest.left ≡ [])
    → (b ≡ false → list ≡ [])
    → (if b
        then record rest { dealt = dealt ++ rest.dealt }
        else record { lasts = false; left = list; dealt = dealt }).left
      ≡ []
left_of true list dealt rest h k = h refl
left_of false list dealt rest h k = k refl

pass_nothing : (ts : List (Bool × ℕ)) (w : ℕ) → (pass ts w []).left ≡ []
unfolding pass tick_damage
pass_nothing [] w = refl
pass_nothing ((true, t) ∷ ts) w =
    left_of (lives w t) [] [] (pass ts (passed w t) []) (λ _. pass_nothing ts (passed w t))
      (λ _. refl)
pass_nothing ((false, t) ∷ ts) w =
    left_of (lives w t) [] [] (pass ts (passed w t) []) (λ _. pass_nothing ts (passed w t))
      (λ _. refl)

-- An execution that leaves the list `list'`, and what follows.
left_after :
    (ts : List (Bool × ℕ)) (w i m m' : ℕ) (list' : List Interval) (dealt : List Effect)
    → i < 2 ^ 31
    → m' + i ≤ m
    → Lasts w m
    → (m' ≡ 0 → list' ≡ [])
    → (Lasts (passed w i) m' → (pass ts (passed w i) list').left ≡ [])
    → (after ts w i (list', dealt)).left ≡ []
left_after ts w i m m' list' dealt short le lasts empty rest =
    elim (passed-Lasts w i m m' short le lasts) [
      | inl (goes_on, l) ↦
          left_of (lives w i) list' dealt (pass ts (passed w i) list') (λ _. rest l)
            (λ x. absurd (contradiction (lives w i) goes_on x))
      | inr e ↦
          left_of (lives w i) list' dealt (pass ts (passed w i) list')
            (λ _.
              subst (λ l. (pass ts (passed w i) l).left ≡ []) (sym (empty e))
                (pass_nothing ts (passed w i)))
            (λ _. empty e)
    ]

pass_all :
    (n t w : ℕ) (list : List Interval)
    → 1 ≤ t
    → t < 2 ^ 31
    → IsTimed list
    → turns t list ≤ n
    → Lasts w (turns t list * t)
    → (pass (repeat n t) w list).left ≡ []
unfolding pass
pass_all n t w [] some_time short timed le lasts = pass_nothing (repeat n t) w
pass_all zero t w (i ∷ is) some_time short timed le lasts =
    absurd (omega (arith, le, fewer_turns t i is))
pass_all (suc n) t w (i ∷ is) some_time short timed le lasts =
    elim (tick_damage-cases true t i is) [
      | inl (later, e) ↦
          let turn = turns-sooner t i is some_time short timed.0.0 later in
          subst (λ d. (after (repeat n t) w t d).left ≡ []) (sym e)
            (left_after (repeat n t) w t (turns t (i ∷ is) * t) (turns t (sooner t i ∷ is) * t)
              (sooner t i ∷ is) [] short (one_more _ _ t turn) lasts
              (no_turns t (sooner t i ∷ is) some_time)
              (λ l.
                pass_all n t (passed w t) (sooner t i ∷ is) some_time short
                  ((sooner_small t i.time_left short timed.0.0 later, timed.0.1), timed.1)
                  (omega (arith, turn, le)) l))
      | inr (now, e) ↦
          let turn = fewer_turns t i is in
          subst (λ d. (after (repeat n t) w t d).left ≡ []) (sym e)
            (left_after (repeat n t) w t (turns t (i ∷ is) * t) (turns t is * t) is
              (do_damage i.value ∷ []) short (one_more _ _ t turn) lasts (no_turns t is some_time)
              (λ l.
                pass_all n t (passed w t) is some_time short timed.1 (omega (arith, turn, le)) l))
    ]

-- An execution before, in a field or not.
goes_on :
    (ts : List (Bool × ℕ)) (n t w : ℕ) (removes : Bool) (s : ℕ) (i : Interval) (is : List Interval)
    (list' : List Interval) (dealt : List Effect)
    → tick_damage removes s (i ∷ is) ≡ (list', dealt)
    → s < 2 ^ 31
    → 1 ≤ t
    → most_turns t list' ≤ most_turns t (i ∷ is)
    → Lasts w (spent ((removes, s) ∷ ts) + most_turns t (i ∷ is) * t)
    → (Lasts (passed w (counted removes s (i ∷ is))) (spent ts + most_turns t list' * t)
        → (pass (ts ++ repeat n t) (passed w (counted removes s (i ∷ is))) list').left ≡ [])
    → (after
        (ts ++ repeat n t)
        w
        (counted removes s (i ∷ is))
        (tick_damage removes s (i ∷ is))).left
      ≡ []
goes_on ts n t w removes s i is list' dealt e small some_time less lasts rest =
    subst (λ d. (after (ts ++ repeat n t) w (counted removes s (i ∷ is)) d).left ≡ []) (sym e)
      (left_after (ts ++ repeat n t) w (counted removes s (i ∷ is))
        (spent ((removes, s) ∷ ts) + most_turns t (i ∷ is) * t) (spent ts + most_turns t list' * t)
        list' dealt (counted_small removes s (i ∷ is) small)
        (spent_counted ts removes s (most_turns t list' * t) (most_turns t (i ∷ is) * t) (i ∷ is)
          refl (mul-le-mul_right t less))
        lasts
        (λ z. no_most_turns t list' some_time (zero_of_sum (spent ts) (most_turns t list' * t) z))
        rest)

le_trans : (a b c : ℕ) → a ≤ b → b ≤ c → a ≤ c
le_trans a b c h k = omega (arith, h, k)

sooner_le :
    (a s : ℕ) → s < 2 ^ 31 → a < 2 ^ 31 → is_positive (word_minus a s) ≡ true → word_minus a s ≤ a
sooner_le a s short small later = omega (arith, word_minus-less a s short small later)

pass_append :
    (ts : List (Bool × ℕ)) (n t w : ℕ) (list : List Interval)
    → AreShort ts
    → 1 ≤ t
    → t < 2 ^ 31
    → IsTimed list
    → most_turns t list ≤ n
    → Lasts w (spent ts + most_turns t list * t)
    → (pass (ts ++ repeat n t) w list).left ≡ []
unfolding pass
pass_append [] n t w list shorts some_time short timed le lasts =
    pass_all n t w list some_time short timed (le_trans _ _ n (turns-most t list) le) (
      Lasts-less w (0 + most_turns t list * t) (turns t list * t)
        (omega (arith, mul-le-mul_right t (turns-most t list))) lasts)
pass_append (e ∷ ts) n t w [] shorts some_time short timed le lasts =
    pass_nothing (e ∷ ts ++ repeat n t) w
pass_append ((true, s) ∷ ts) n t w (i ∷ is) shorts some_time short timed le lasts =
    elim (tick_damage-cases true s i is) [
      | inl (later, e) ↦
          let less =
            most_sooner t s i is some_time (sooner_le i.time_left s shorts.0 timed.0.0 later) in
          goes_on ts n t w true s i is (sooner s i ∷ is) [] e shorts.0 some_time less lasts (
            pass_append ts n t _ (sooner s i ∷ is) shorts.1 some_time short
              ((sooner_small s i.time_left shorts.0 timed.0.0 later, timed.0.1), timed.1)
              (le_trans _ _ n less le))
      | inr (now, e) ↦
          goes_on ts n t w true s i is is (do_damage i.value ∷ []) e shorts.0 some_time
            (most_rest t i is) lasts
            (pass_append ts n t _ is shorts.1 some_time short timed.1
              (le_trans _ _ n (most_rest t i is) le))
    ]
pass_append ((false, s) ∷ ts) n t w (i ∷ is) shorts some_time short timed le lasts =
    elim (tick_damage-cases false s i is) [
      | inl (later, e) ↦
          let less =
            most_sooner t s i is some_time (sooner_le i.time_left s shorts.0 timed.0.0 later) in
          goes_on ts n t w false s i is (sooner s i ∷ is) [] e shorts.0 some_time less lasts (
            pass_append ts n t _ (sooner s i ∷ is) shorts.1 some_time short
              ((sooner_small s i.time_left shorts.0 timed.0.0 later, timed.0.1), timed.1)
              (le_trans _ _ n less le))
      | inr (now, e) ↦
          goes_on ts n t w false s i is (anew i ∷ is) (do_damage i.value ∷ []) e shorts.0 some_time
            (most_anew t i is) lasts
            (pass_append ts n t _ (anew i ∷ is) shorts.1 some_time short
              ((timed.0.1, timed.0.1), timed.1) (le_trans _ _ n (most_anew t i is) le))
    ]

in_field-repeat : (ts : List (Bool × ℕ)) (n t : ℕ) → in_field (ts ++ repeat n t) ≡ in_field ts
in_field-repeat [] zero t = refl
in_field-repeat [] (suc n) t = in_field-repeat [] n t
in_field-repeat ((true, s) ∷ ts) n t = in_field-repeat ts n t
in_field-repeat ((false, s) ∷ ts) n t = ap suc (in_field-repeat ts n t)

-- A condition of damage over time, with times and intervals that are not negative, is executed in fields
-- of its own kind and out of them with any intervals below 2^31, and then often enough, with such an
-- interval `t` that is not 0, outside: at least as many times as the times and intervals of its list take
-- with `t`. If its ticks are -1, or
-- below 2^31 and no less than the intervals of the executions outside before and of as many at the end as
-- the list takes, then no damage is left, each has been dealt in the order of the list, and again at most
-- once for each execution in a field, so exactly once if there was none.
pub run_all :
    (ts : List (Bool × ℕ)) (n t : ℕ) (c : Condition) (r : Damage)
    → AreShort ts
    → 1 ≤ t
    → t < 2 ^ 31
    → IsTimed r.damage_list
    → most_turns t r.damage_list ≤ n
    → Lasts c.ticks (spent ts + most_turns t r.damage_list * t)
    → let o = run (ts ++ repeat n t) c r in
      (o.left ≡ []) × IsRepeated (in_field ts) (values r.damage_list) o.dealt
run_all ts n t c r shorts some_time short timed le lasts =
    let e = run-pass (ts ++ repeat n t) c r in
    let p = pass (ts ++ repeat n t) c.ticks r.damage_list in
    let none_left =
      pass_append ts n t c.ticks r.damage_list shorts some_time short timed le lasts in
    let in_turn = pass-IsRepeated (ts ++ repeat n t) c.ticks r.damage_list in
    subst (λ o. (o.left ≡ []) × IsRepeated (in_field ts) (values r.damage_list) o.dealt) (sym e)
      (
        none_left,
        subst (λ es. IsRepeated (in_field ts) (values r.damage_list) es)
            (ap (λ l. p.dealt ++ damages_of l) none_left ∙ append-nil p.dealt)
            (subst (λ k. IsRepeated k (values r.damage_list) (p.dealt ++ damages_of p.left))
              (in_field-repeat ts n t) in_turn),
      )

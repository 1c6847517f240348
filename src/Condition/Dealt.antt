-- ===== src/Condition/Dealt.antt =====
-- A condition of damage over time that is executed again and again, as Creature::executeConditions of
-- source/creature.cpp does: its damage is dealt in order, and all of it if it lasts long enough.
use evolution078ots.Prelude.{
  ℕ, zero, suc, ◌+◌, ◌-◌, ◌*◌, ◌/◌, ◌^◌, ◌≤◌, ◌<◌, max, Bool, true, false, ◌||◌, List, [], ◌∷◌,
  ◌++◌, map, ◌==◌, if◌then◌else◌, ◌≡◌, refl, sym, ap, subst, ◌∙◌, ◌⊎◌, arith, Bool-cases, inl, inr,
  All,
}
use mathlib.Core.List.{append-nil, append_assoc}
use evolution078ots.Condition.{Condition, Class, damage, Damage, Interval}
use evolution078ots.Condition.Ticks.{
  word_minus, is_positive, is_nil, Effect, do_damage, tick_damage, execute_damage, execute_base,
}
pub mod Order
pub mod Turns
pub mod Whole

-- Whether the condition lasts, the list that is left, and the damage on the way.
pub record Outcome : Type 0 where
  pub lasts : Bool
  pub left : List Interval
  pub dealt : List Effect

abbrev damage_in : Class → Damage → Damage
damage_in (damage r) d = r
damage_in _ d = d

-- Executions, each with what onTickCondition leaves in bRemove, false in a field of the condition's own
-- kind, and the interval. A condition that executeCondition answers false for is deleted.
unfoldable pub run : List (Bool × ℕ) → Condition → Damage → Outcome
unfolding execute_damage
run [] c r = record { lasts = true; left = r.damage_list; dealt = [] }
run ((removes, t) ∷ ts) c r =
    let ((c', more), dealt) = execute_damage c r removes t in
    let r' = damage_in c'.class r in
    let rest = run ts c' r' in
    if more
    then record rest { dealt = dealt ++ rest.dealt }
    else record { lasts = false; left = r'.damage_list; dealt = dealt }

-- The same in terms of the ticks and the list.
abbrev pub passed : ℕ → ℕ → ℕ
passed w i = if w == 2 ^ 32 - 1 then w else word_minus w i

abbrev pub lives : ℕ → ℕ → Bool
lives w i = if w == 2 ^ 32 - 1 then true else is_positive (word_minus w i)

abbrev pub counted : Bool → ℕ → List Interval → ℕ
counted removes t list = if is_nil list || removes then t else 0

unfoldable pub pass : List (Bool × ℕ) → ℕ → List Interval → Outcome
unfolding tick_damage
pass [] w list = record { lasts = true; left = list; dealt = [] }
pass ((removes, t) ∷ ts) w list =
    let (list', dealt) = tick_damage removes t list in
    let rest = pass ts (passed w (counted removes t list)) list' in
    if lives w (counted removes t list)
    then record rest { dealt = dealt ++ rest.dealt }
    else record { lasts = false; left = list'; dealt = dealt }

execute_damage_lem :
    (c : Condition) (r : Damage) (removes : Bool) (t : ℕ)
    → let ticked = tick_damage removes t r.damage_list in
      let i = counted removes t r.damage_list in
      execute_damage c r removes t ≡ (
        (
          record {
            type = c.type;
            id = c.id;
            ticks = passed c.ticks i;
            class = damage (record r { damage_list = ticked.0 });
          },
          lives c.ticks i,
        ),
        ticked.1,
      )
unfolding execute_damage execute_base
execute_damage_lem c r removes t = elim (Bool-cases (c.ticks == 2 ^ 32 - 1)) [
  | inl forever ↦ rw (execute_damage, execute_base, forever) refl
  | inr other ↦ rw (execute_damage, execute_base, other) refl
]

and_then : List (Bool × ℕ) → Damage → (Condition × Bool) × List Effect → Outcome
unfolding run
and_then ts r e =
    let r' = damage_in e.0.0.class r in
    let rest = run ts e.0.0 r' in
    if e.0.1
    then record rest { dealt = e.1 ++ rest.dealt }
    else record { lasts = false; left = r'.damage_list; dealt = e.1 }

pub run-pass :
    (ts : List (Bool × ℕ)) (c : Condition) (r : Damage) → run ts c r ≡ pass ts c.ticks r.damage_list
unfolding run pass and_then
run-pass [] c r = refl
run-pass ((removes, t) ∷ ts) c r =
    let ticked = tick_damage removes t r.damage_list in
    let i = counted removes t r.damage_list in
    ap (and_then ts r) (execute_damage_lem c r removes t)
    ∙ ap
        (λ (rest : Outcome).
          if lives c.ticks i
          then record rest { dealt = ticked.1 ++ rest.dealt }
          else record { lasts = false; left = ticked.0; dealt = ticked.1 })
        (run-pass ts
          (record {
            type = c.type;
            id = c.id;
            ticks = passed c.ticks i;
            class = damage (record r { damage_list = ticked.0 });
          })
          (record r { damage_list = ticked.0 }))

abbrev pub after : List (Bool × ℕ) → ℕ → ℕ → List Interval × List Effect → Outcome
after ts w i ticked =
    let rest = pass ts (passed w i) ticked.0 in
    if lives w i
    then record rest { dealt = ticked.1 ++ rest.dealt }
    else record { lasts = false; left = ticked.0; dealt = ticked.1 }

abbrev pub sooner : ℕ → Interval → Interval
sooner t i = record i { time_left = word_minus i.time_left t }

abbrev pub anew : Interval → Interval
anew i = record i { time_left = i.interval }

-- The two ways of a list that is not empty.
pub tick_damage-cases :
    (removes : Bool) (t : ℕ) (i : Interval) (is : List Interval)
    → ((is_positive (word_minus i.time_left t) ≡ true)
        × (tick_damage removes t (i ∷ is) ≡ (sooner t i ∷ is, [])))
      ⊎ ((is_positive (word_minus i.time_left t) ≡ false)
          × (tick_damage removes t (i ∷ is)
              ≡ (if removes then is else anew i ∷ is, do_damage i.value ∷ [])))
unfolding tick_damage
tick_damage-cases removes t i is = elim (Bool-cases (is_positive (word_minus i.time_left t))) [
  | inl later ↦ inl (later, rw (tick_damage, later) refl)
  | inr now ↦ inr (now, rw (tick_damage, now) refl)
]

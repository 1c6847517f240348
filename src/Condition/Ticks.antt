-- ===== src/Condition/Ticks.antt =====
-- How the conditions of source/condition.cpp pass and join. A word of 32 bits is read with a sign where
-- the code does so; what a condition does to its creature is a list of effects.
use evolution078ots.Prelude.{
  ℕ, zero, suc, ◌+◌, ◌-◌, ◌%◌, ◌^◌, Bool, true, false, not, ◌&&◌, ◌||◌, Option, none, some, List,
  [], ◌∷◌, ◌++◌, ltb, leb, ◌==◌, if◌then◌else◌,
}
use evolution078ots.Condition.{
  Condition, regeneration, soul, damage, light, Regeneration, Soul, Damage, Interval, Light,
}

-- The difference of two words, and the tests of words with a sign.
abbrev pub word_minus : ℕ → ℕ → ℕ
word_minus a b = (a + 2 ^ 32 - b) % 2 ^ 32

abbrev pub is_positive : ℕ → Bool
is_positive w = ltb 0 w && ltb w (2 ^ 31)

abbrev pub word_greater : ℕ → ℕ → Bool
word_greater a b = ltb ((b + 2 ^ 31) % 2 ^ 32) ((a + 2 ^ 31) % 2 ^ 32)

pub data Effect : Type 0 where
  change_health change_mana change_soul : ℕ → Effect
  -- doDamage, and the light of the creature that goes down by 1.
  do_damage : ℕ → Effect
  dim_light : Effect

-- executeCondition of the base class; -1 ticks last forever.
unfoldable pub execute_base : Condition → ℕ → Condition × Bool
execute_base c interval =
    if c.ticks == 2 ^ 32 - 1
    then (c, true)
    else let left = word_minus c.ticks interval in (record c { ticks = left }, is_positive left)

-- A counter that reaches its limit starts again.
abbrev pub elapsed : Bool → ℕ → ℕ → Bool
elapsed in_pz counter limit = not in_pz && leb limit counter

unfoldable pub execute_regeneration :
    Condition → Regeneration → Bool → ℕ → (Condition × Bool) × List Effect
unfolding execute_base
execute_regeneration c r in_pz interval =
    let health = (r.internal_health_ticks + interval) % 2 ^ 32 in
    let mana = (r.internal_mana_ticks + interval) % 2 ^ 32 in
    (
      execute_base
          (record c {
            class = regeneration (record r {
              internal_health_ticks = if elapsed in_pz health r.health_ticks then 0 else health;
              internal_mana_ticks = if elapsed in_pz mana r.mana_ticks then 0 else mana;
            });
          })
          interval,
      (if elapsed in_pz health r.health_ticks then change_health r.health_gain ∷ [] else [])
          ++ (if elapsed in_pz mana r.mana_ticks then change_mana r.mana_gain ∷ [] else []),
    )

-- `in_pz` is true for a creature that is no player too.
unfoldable pub execute_soul : Condition → Soul → Bool → ℕ → (Condition × Bool) × List Effect
unfolding execute_base
execute_soul c r in_pz interval =
    let count = (r.internal_soul_ticks + interval) % 2 ^ 32 in
    (
      execute_base
          (record c {
            class = soul (record r {
              internal_soul_ticks = if elapsed in_pz count r.soul_ticks then 0 else count;
            });
          })
          interval,
      if elapsed in_pz count r.soul_ticks then change_soul r.soul_gain ∷ [] else [],
    )

-- The damage that is due, and the list after it; `removes` is what onTickCondition leaves in bRemove.
unfoldable pub tick_damage : Bool → ℕ → List Interval → List Interval × List Effect
tick_damage removes interval [] = ([], [])
tick_damage removes interval (i ∷ is) =
    let left = word_minus i.time_left interval in
    if is_positive left
    then (record i { time_left = left } ∷ is, [])
    else (if removes then is else record i { time_left = i.interval } ∷ is, do_damage i.value ∷ [])

abbrev pub is_nil {ℓ} : {A : Type ℓ} → List A → Bool
is_nil [] = true
is_nil (x ∷ xs) = false

unfoldable pub execute_damage : Condition → Damage → Bool → ℕ → (Condition × Bool) × List Effect
unfolding execute_base tick_damage
execute_damage c r removes interval =
    let (list, effects) = tick_damage removes interval r.damage_list in
    (
      execute_base (record c { class = damage (record r { damage_list = list }) })
          (if is_nil r.damage_list || removes then interval else 0),
      effects,
    )

-- `creature_level` is the level of the creature's light.
unfoldable pub execute_light : Condition → Light → ℕ → ℕ → (Condition × Bool) × List Effect
unfolding execute_base
execute_light c r creature_level interval =
    let count = (r.internal_light_ticks + interval) % 2 ^ 32 in
    let due = leb r.light_change_interval count in
    (
      execute_base
          (record c {
            class = light (record r { internal_light_ticks = if due then 0 else count });
          })
          interval,
      if due && ltb 0 creature_level then dim_light ∷ [] else [],
    )

-- addCondition of a ConditionGeneric, a ConditionRegeneration and a ConditionSoul.
unfoldable pub add_ticks : Condition → Condition → Condition
add_ticks c new =
    if new.type == c.type && word_greater new.ticks c.ticks
    then record c { ticks = new.ticks }
    else c

unfoldable pub add_regeneration : Condition → Regeneration → Condition → Regeneration → Condition
unfolding add_ticks
add_regeneration c r new n =
    if new.type == c.type
    then record (add_ticks c new) {
      class = regeneration (record r {
        health_ticks = n.health_ticks;
        mana_ticks = n.mana_ticks;
        health_gain = n.health_gain;
        mana_gain = n.mana_gain;
      });
    }
    else c

unfoldable pub add_soul : Condition → Soul → Condition → Soul → Condition
unfolding add_ticks
add_soul c r new n =
    if new.type == c.type
    then record (add_ticks c new) {
      class = soul (record r { soul_ticks = n.soul_ticks; soul_gain = n.soul_gain });
    }
    else c

unfoldable pub add_damage : ℕ → ℕ → ℕ → Condition → Damage → Condition
add_damage zero time value c r = record c { class = damage r }
add_damage (suc rounds) time value c r =
    add_damage rounds time value (record c { ticks = (c.ticks + time) % 2 ^ 32 })
      (record r {
        damage_list =
            r.damage_list ++ record { time_left = time; value = value; interval = time } ∷ [];
      })

unfoldable pub get_next_damage : Damage → Option (ℕ × Damage)
get_next_damage r = elim r.damage_list [
  | [] ↦ none
  | i ∷ is ↦ some (i.value, record r { damage_list = is })
]

-- ===== src/Condition/Examples.antt =====
-- The theorems on stored conditions at a burning player and at a regeneration.
use evolution078ots.Prelude.{ℕ, Bool, List, ◌++◌, false, inr, true, some, [], ◌∷◌, ◌≡◌, arith}
use evolution078ots.FileLoader.PropStream.{empty_stream}
use evolution078ots.Condition.{
  Condition, generic, damage, Damage, Regeneration, serialize, unserialize,
}
use evolution078ots.Condition.Stored.{
  Pair, damages, blank, stored, restored, LossyPair, regenerations, lossy_blank, lossy_stored, left,
  unserialize-serialize, unserialize-serialize_lossy,
}
use evolution078ots.Condition.Dealt.{run}
use evolution078ots.Condition.Dealt.Order.{IsRepeated, values}
use evolution078ots.Condition.Dealt.Turns.{repeat, most_turns}
use evolution078ots.Condition.Dealt.Whole.{run_all}

abbrev new_one : Condition
new_one = record { type = 0; id = 0; ticks = 0; class = generic }

abbrev old_one : Condition
old_one = record { type = 2; id = 7; ticks = 6000; class = generic }

abbrev no_damage : Damage
no_damage = record {
  max_damage = 0;
  min_damage = 0;
  start_damage = 0;
  tick_interval = 2000;
  delayed = 0;
  owner = 0;
  damage_list = [];
}

abbrev burning : Damage
burning = record no_damage {
  delayed = 1;
  owner = 268435456;
  damage_list =
      record { time_left = 2000; value = 4294967286; interval = 2000 }
      ∷ record { time_left = 4000; value = 4294967291; interval = 4000 }
      ∷ [];
}

abbrev fire : Pair
fire = damages no_damage burning

unserialize-serialize_example :
    unserialize
      (record new_one { class = blank fire })
      (serialize (record old_one { class = stored fire }) empty_stream).buffer
    ≡ some (record old_one { class = restored fire }, true)
unserialize-serialize_example = unserialize-serialize new_one old_one fire (
  omega arith,
  (
    omega arith,
    (
      omega arith,
      (
        omega arith,
        (
          omega arith,
          ((omega arith, omega arith, omega arith), ((omega arith, omega arith, omega arith), tt)),
        ),
      ),
    ),
  ),
)

abbrev no_gain : Regeneration
no_gain = record {
  internal_health_ticks = 0;
  internal_mana_ticks = 0;
  health_ticks = 1000;
  mana_ticks = 1000;
  health_gain = 0;
  mana_gain = 0;
}

abbrev food : LossyPair
food =
    regenerations no_gain
      (record no_gain { health_ticks = 6000; mana_ticks = 3000; health_gain = 1; mana_gain = 2 })

unserialize-serialize_lossy_example :
    unserialize
      (record new_one { class = lossy_blank food })
      (serialize (record old_one { class = lossy_stored food }) empty_stream).buffer
    ≡ some (record new_one { class = left food }, true)
unserialize-serialize_lossy_example = unserialize-serialize_lossy new_one old_one food (
  omega arith,
  (omega arith, (omega arith, (omega arith, (omega arith, (omega arith, (omega arith, tt)))))),
)

abbrev prolonged : Condition
prolonged = record old_one { ticks = 7000; class = damage burning }

-- Once outside and once in a fire, and then outside.
abbrev walk : List (Bool × ℕ)
walk = (true, 1000) ∷ (false, 1000) ∷ []

run_all_example :
    let o = run (walk ++ repeat 6 1000) prolonged burning in
    (o.left ≡ []) × IsRepeated 1 (values burning.damage_list) o.dealt
unfolding most_turns
run_all_example =
    run_all walk 6 1000 prolonged burning (omega arith, (omega arith, tt)) (omega arith)
      (omega arith) ((omega arith, omega arith), ((omega arith, omega arith), tt)) (omega arith)
      (inr (omega arith, omega arith))

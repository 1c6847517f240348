-- ===== src/Item/Attributes/Examples.antt =====
-- The theorem on attributes at an item with a duration, an owner and a text.
use evolution078ots.Prelude.{List, [], ◌∷◌}
use evolution078ots.Item.Attributes.{no_attributes, text, owner, duration}
use evolution078ots.Item.Attributes.Meaning.{
  Call, set_int, increase, set_str, run, meaning, no_meaning, Answers, run-Answers,
}

abbrev calls : List Call
calls =
    set_int duration 600
    ∷ set_str text (104 ∷ 105 ∷ [])
    ∷ increase duration 4294967196
    ∷ set_int text 5
    ∷ set_int owner 7
    ∷ []

run-Answers_example : Answers (run no_attributes calls) (meaning no_meaning calls) duration
run-Answers_example = run-Answers calls duration

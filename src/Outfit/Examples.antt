-- ===== src/Outfit/Examples.antt =====
-- The theorem about outfit lists at a list of two looks.
use evolution078ots.Prelude.{List, [], ◌∷◌, arith}
use evolution078ots.Outfit.{Outfit}
use evolution078ots.Outfit.Finds.{Maps, times, outfit_list-Maps}

abbrev wardrobe : List Outfit
wardrobe = record { looktype = 128; premium = 1 } ∷ record { looktype = 129; premium = 0 } ∷ []

outfit_list-Maps_example : Maps wardrobe (record { looktype = 128; premium = 2 }) 128
unfolding times
outfit_list-Maps_example =
    outfit_list-Maps wardrobe (record { looktype = 128; premium = 2 }) 128 (omega arith)

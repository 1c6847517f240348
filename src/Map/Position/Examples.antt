-- ===== src/Map/Position/Examples.antt =====
-- The theorems about positions at concrete points.
use evolution078ots.Prelude.Int.{pos}
use evolution078ots.Map.Position.{Position}
use evolution078ots.Map.Position.Order.{SkewedAt, differs_ex_lem}

abbrev above : Position
above = record { x = pos 1000; y = pos 20; z = pos 6 }

differs_ex_lem_example :
    SkewedAt
      (record { position = above; stackpos = pos 1 })
      (record { position = above; stackpos = pos 2 })
differs_ex_lem_example =
    differs_ex_lem (record { position = above; stackpos = pos 1 })
      (record { position = above; stackpos = pos 2 })

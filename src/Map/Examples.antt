-- ===== src/Map/Examples.antt =====
-- The theorem on the table of tiles at two squares that share their place in the table.
use evolution078ots.Prelude.{◌&&◌, some, [], ltb, if◌then◌else◌, ◌≡◌, arith}
use evolution078ots.Map.Tiles.{TileMaps, get_tile, set_tile, same_place, is_none, get_tile-set_tile}

abbrev no_tiles : TileMaps
no_tiles i j = []

get_tile-set_tile_example : get_tile (set_tile no_tiles 100 200 7 5) 228 200 7 ≡ (
    if same_place 228 200 7 100 200 7 && (ltb 7 16 && is_none (get_tile no_tiles 100 200 7))
    then some 5
    else get_tile no_tiles 228 200 7)
get_tile-set_tile_example =
    get_tile-set_tile no_tiles 100 200 7 5 228 200 7 (omega arith) (omega arith) (omega arith)
      (omega arith) (omega arith) (omega arith)

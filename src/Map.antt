-- ===== src/Map.antt =====
-- source/position.h and the table of tiles of source/map.cpp.
pub mod Position
pub mod Tiles
mod Examples

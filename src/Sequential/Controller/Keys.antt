-- ===== src/Sequential/Controller/Keys.antt =====
-- The fields of a camera event's key.
use spi_nnaker.Prelude.{ℕ, ◌/◌, ◌^◌, bit_and_mask, arith}
use spi_nnaker.Prelude.Int.{pos}
use spi_nnaker.Track.Valid.{IsCoordinate}
use spi_nnaker.Sequential.Controller.{event_x, event_y}

pub event_x-IsCoordinate : (key : ℕ) → IsCoordinate (pos (event_x key))
unfolding event_x
event_x-IsCoordinate key = omega (arith, bit_and_mask 7 (key / 2 ^ 8))

pub event_y-IsCoordinate : (key : ℕ) → IsCoordinate (pos (event_y key))
unfolding event_y
event_y-IsCoordinate key = omega (arith, bit_and_mask 7 key)

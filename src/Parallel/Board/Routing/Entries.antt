-- ===== src/Parallel/Board/Routing/Entries.antt =====
-- Which entry of the tables of a chip a packet matches first.
use spi_nnaker.Prelude.{
  ℕ, ◌*◌, ◌/◌, ◌%◌, ◌^◌, ◌<◌, ◌≡◌, bit_and, bit_and_mask, bit_and_high, [], ◌∷◌, All, arith,
}
use spi_nnaker.Parallel.Board.Router.{Yields}
use spi_nnaker.Sequential.Controller.{event_polarity}
use spi_nnaker.Device.Routes.{
  east, n_east, north, west, s_west, south, init_chip_io, error_msg, upd_msg, all_nodes_master_chip,
  all_nodes_no_master_chip, master_core, any_of,
}

-- The masks of the tables, in numbers.
mask_32 : (key : ℕ) → bit_and key 0xffff_ffff ≡ key % 2 ^ 32
mask_32 key = bit_and_mask 32 key

mask_high_16 : (key : ℕ) → bit_and key 0xffff_0000 ≡ key / 2 ^ 16 % 2 ^ 16 * 2 ^ 16
mask_high_16 key = omega (arith, bit_and_high 16 key 0xffff, bit_and_mask 16 (key / 2 ^ 16))

mask_high_4 : (key : ℕ) → bit_and key 0xf000_0000 ≡ key / 2 ^ 28 % 16 * 2 ^ 28
mask_high_4 key = omega (arith, bit_and_high 28 key 15, bit_and_mask 4 (key / 2 ^ 28))

mask_high_2 : (key : ℕ) → bit_and key 0xc000_0000 ≡ key / 2 ^ 30 % 4 * 2 ^ 30
mask_high_2 key = omega (arith, bit_and_high 30 key 3, bit_and_mask 2 (key / 2 ^ 30))

ruleset masks = (arith, mask_32, mask_high_16, mask_high_4, mask_high_2)

-- An error matches no entry before its own, on any chip, and an update neither.
abbrev pub ErrorYields : ℕ → ℕ → ℕ → Type 0
ErrorYields key chip route = All (Yields key 0x6 error_msg 0xf000_0000 route) (init_chip_io chip)

abbrev pub UpdateYields : ℕ → ℕ → ℕ → Type 0
UpdateYields key chip route = All (Yields key 0x7 upd_msg 0xc000_0000 route) (init_chip_io chip)

-- The route of an error on chip 0.
abbrev pub spread : ℕ
spread = any_of north (n_east ∷ east ∷ all_nodes_master_chip ∷ [])

pub error_yields :
    (key : ℕ)
    → bit_and key 0xf000_0000 ≡ error_msg
    → ErrorYields key 0 spread
      × ErrorYields key 1 all_nodes_no_master_chip
      × ErrorYields key 256 all_nodes_no_master_chip
      × ErrorYields key 257 all_nodes_no_master_chip
unfolding init_chip_io
error_yields key h =
    let a = mask_32 key in
    let b = mask_high_16 key in let c = mask_high_4 key in let d = mask_high_2 key in ground arith

pub update_yields :
    (key : ℕ)
    → bit_and key 0xc000_0000 ≡ upd_msg
    → UpdateYields key 0 master_core
      × UpdateYields key 1 south
      × UpdateYields key 256 west
      × UpdateYields key 257 s_west
unfolding init_chip_io
update_yields key h =
    let a = mask_32 key in
    let b = mask_high_16 key in let c = mask_high_4 key in let d = mask_high_2 key in ground arith

-- A camera event of polarity 1 matches no entry but the default.
pub camera-Yields :
    (key : ℕ)
    → key < 2 ^ 16
    → event_polarity key ≡ 1
    → All (Yields key 0x20 0x0 0x0 master_core) (init_chip_io 0)
unfolding init_chip_io event_polarity
camera-Yields key h p =
    let a = mask_32 key in
    let b = mask_high_16 key in
    let c = mask_high_4 key in
    let d = mask_high_2 key in let e = bit_and_mask 1 (key / 2 ^ 7) in ground arith

-- ===== src/Parallel/Board/Routing.antt =====
-- How a packet travels over the board, by the routing tables of `initIO` in parallel/communication.c.
mod Entries
use mathlib.Core.List.{Memᴰ}
use mathlib.Core.List.Memᴰ.{head, tail}
use spi_nnaker.Prelude.{
  ℕ, ◌^◌, ◌<◌, ◌≡◌, refl, bit_and, bit_and-zero, Bool, true, false, not, ◌&&◌, ◌==◌, ==_iff, some,
  List, [], ◌∷◌, ◌++◌, map, All, All-append, arith,
}
use Entries.{ErrorYields, UpdateYields, error_yields, update_yields, camera-Yields}
use spi_nnaker.Device.{set_mc_entry}
use spi_nnaker.Parallel.Board.Router.{Router, RouterLaws}
use spi_nnaker.Parallel.Messages.{is_error, is_update}
use spi_nnaker.Sequential.Controller.{event_polarity}
use spi_nnaker.Device.Routes.{
  east, n_east, north, west, s_west, south, core, init_chip_io, error_msg, upd_msg, master_core,
}

-- A core of a chip.
abbrev pub Core : Type 0
Core = record { chip : ℕ; number : ℕ }

abbrev pub cores_from_1 : List ℕ
cores_from_1 = 1 ∷ 2 ∷ 3 ∷ 4 ∷ 5 ∷ 6 ∷ 7 ∷ 8 ∷ 9 ∷ 10 ∷ 11 ∷ 12 ∷ 13 ∷ 14 ∷ 15 ∷ []

abbrev pub cores_from_2 : List ℕ
cores_from_2 = 2 ∷ 3 ∷ 4 ∷ 5 ∷ 6 ∷ 7 ∷ 8 ∷ 9 ∷ 10 ∷ 11 ∷ 12 ∷ 13 ∷ 14 ∷ 15 ∷ []

abbrev pub cores_of : ℕ → List ℕ → List Core
cores_of chip = map (λ c. record { chip = chip; number = c })

-- The cores 1 to 15 of the four chips but the master, core 1 of chip 0.
abbrev pub node_cores : List Core
node_cores =
    cores_of 0 cores_from_2
    ++ (cores_of 1 cores_from_1 ++ (cores_of 256 cores_from_1 ++ cores_of 257 cores_from_1))

-- Whether the route has the bit of every core.
abbrev covers : ℕ → List ℕ → Bool
covers route [] = true
covers route (c ∷ cs) = not (bit_and route (core c) == 0) && covers route cs

module _ (R : Router) (laws : RouterLaws R) where
  open R use {route_of, Arrives}

  -- The cores of a chip whose bits its route has.
  to_cores :
      (chip key route : ℕ)
      → route_of (init_chip_io chip) key ≡ some route
      → (cs : List ℕ) → covers route cs ≡ true
      → All (λ (p : Core). Arrives init_chip_io chip key p.chip p.number) (cores_of chip cs)
  to_cores chip key route e [] h = tt
  to_cores chip key route e (c ∷ cs) h =
      let own : (bit_and route (core c) == 0) ≡ false = ground arith in
      let others : covers route cs ≡ true = ground arith in
      (laws.to_core init_chip_io chip key route c e own, to_cores chip key route e cs others)

  -- What arrives from a neighbour's router.
  over_link :
      (chip key route link next : ℕ)
      → route_of (init_chip_io chip) key ≡ some route
      → (bit_and route link == 0) ≡ false
      → R.neighbour chip link ≡ some next
      → (ps : List Core) → All (λ (p : Core). Arrives init_chip_io next key p.chip p.number) ps
      → All (λ (p : Core). Arrives init_chip_io chip key p.chip p.number) ps
  over_link chip key route link next e bit n [] h = tt
  over_link chip key route link next e bit n (p ∷ ps) h = (
    laws.to_link init_chip_io chip key route link next p.chip p.number e bit n h.0,
    over_link chip key route link next e bit n ps h.1,
  )

  -- The routes of an error and of an update.
  error_route :
      (chip key route : ℕ)
      → Memᴰ (set_mc_entry 0x6 error_msg 0xf000_0000 route) (init_chip_io chip)
      → bit_and key 0xf000_0000 ≡ error_msg
      → ErrorYields key chip route
      → route_of (init_chip_io chip) key ≡ some route
  error_route chip key route =
      laws.first_hit (init_chip_io chip) key 0x6 error_msg 0xf000_0000 route

  update_route :
      (chip key route : ℕ)
      → Memᴰ (set_mc_entry 0x7 upd_msg 0xc000_0000 route) (init_chip_io chip)
      → bit_and key 0xc000_0000 ≡ upd_msg
      → UpdateYields key chip route
      → route_of (init_chip_io chip) key ≡ some route
  update_route chip key route = laws.first_hit (init_chip_io chip) key 0x7 upd_msg 0xc000_0000 route

  -- With the tables of `initIO`, a packet of chip 0 whose key passes the test for an error arrives at the
  -- cores 1 to 15 of all four chips but the master.
  pub error_arrives :
      (key : ℕ)
      → is_error key ≡ true
      → All (λ (p : Core). Arrives init_chip_io 0 key p.chip p.number) node_cores
  unfolding init_chip_io is_error
  error_arrives key h =
      let match = (==_iff (bit_and key 0xf000_0000) error_msg).0 h in
      let (y0, y1, y256, y257) = error_yields key match in
      let r0 = error_route 0 key _ (tail (tail (tail (head refl)))) match y0 in
      let r1 = error_route 1 key _ (head refl) match y1 in
      let r256 = error_route 256 key _ (head refl) match y256 in
      let r257 = error_route 257 key _ (head refl) match y257 in
      let on_1 = to_cores 1 key _ r1 cores_from_1 refl in
      let on_256 = to_cores 256 key _ r256 cores_from_1 refl in
      let on_257 = to_cores 257 key _ r257 cores_from_1 refl in
      let Here = λ (p : Core). Arrives init_chip_io 0 key p.chip p.number in
      let far = cores_of 256 cores_from_1 ++ cores_of 257 cores_from_1 in
      All-append Here (cores_of 0 cores_from_2) (cores_of 1 cores_from_1 ++ far)
        (to_cores 0 key _ r0 cores_from_2 refl)
        (All-append Here (cores_of 1 cores_from_1) far
          (over_link 0 key _ north 1 r0 refl laws.north_of_0 (cores_of 1 cores_from_1) on_1)
          (All-append Here (cores_of 256 cores_from_1) (cores_of 257 cores_from_1)
            (over_link 0 key _ east 256 r0 refl laws.east_of_0 (cores_of 256 cores_from_1) on_256)
            (over_link 0 key _ n_east 257 r0 refl laws.n_east_of_0 (cores_of 257 cores_from_1)
              on_257)))

  -- With the tables of `initIO`, a packet of any of the four chips whose key passes the test for an update
  -- arrives at the master.
  pub update_arrives :
      (key : ℕ)
      → is_update key ≡ true
      → Arrives init_chip_io 0 key 0 1
        × Arrives init_chip_io 1 key 0 1
        × Arrives init_chip_io 256 key 0 1
        × Arrives init_chip_io 257 key 0 1
  unfolding init_chip_io is_update
  update_arrives key h =
      let match = (==_iff (bit_and key 0xc000_0000) upd_msg).0 h in
      let (y0, y1, y256, y257) = update_yields key match in
      let r0 = update_route 0 key _ (tail (tail (tail (tail (head refl))))) match y0 in
      let at_0 = laws.to_core init_chip_io 0 key master_core 1 r0 refl in
      let from =
        λ (chip link : ℕ) (r : route_of (init_chip_io chip) key ≡ some link)
            (b : (bit_and link link == 0) ≡ false) (n : R.neighbour chip link ≡ some 0).
          laws.to_link init_chip_io chip key link link 0 0 1 r b n at_0 in
      (
        at_0,
        from 1 south (update_route 1 key south (tail (head refl)) match y1) refl laws.south_of_1,
        from 256 west (update_route 256 key west (tail (head refl)) match y256) refl
            laws.west_of_256,
        from 257 s_west (update_route 257 key s_west (tail (head refl)) match y257) refl
            laws.s_west_of_257,
      )

  -- A camera event of polarity 1, whose key has 16 bits, arrives at the master.
  pub camera_arrives :
      (key : ℕ) → key < 2 ^ 16 → event_polarity key ≡ 1 → Arrives init_chip_io 0 key 0 1
  unfolding init_chip_io
  camera_arrives key h p =
      let r =
        laws.first_hit (init_chip_io 0) key 0x20 0x0 0x0 master_core
          (tail (tail (tail (tail (tail (head refl)))))) (bit_and-zero key)
          (camera-Yields key h p) in
      laws.to_core init_chip_io 0 key master_core 1 r refl

-- ===== src/Parallel/Board/Router.antt =====
-- The router of a chip, which is hardware: a parameter, with what its documentation says of it.
use mathlib.Core.List.{Memᴰ}
use spi_nnaker.Prelude.{ℕ, ◌≤◌, ◌≡◌, bit_and, false, ◌==◌, Option, some, List, All}
use spi_nnaker.Device.{Effect, set_mc_entry}
use spi_nnaker.Device.Routes.{east, n_east, north, west, s_west, south, core}

-- What a table does with a key, the chip at the end of a link, and where a packet arrives that the
-- router of a chip gets.
pub record Router : Type 1 where
  pub route_of : List Effect → ℕ → Option ℕ
  pub neighbour : ℕ → ℕ → Option ℕ
  pub Arrives : (ℕ → List Effect) → ℕ → ℕ → ℕ → ℕ → Type 0

-- Beside the entry `number` with this key, mask and route, an entry of the table either does not match
-- or has a higher number, and it is not written over that one.
abbrev pub Yields : ℕ → ℕ → ℕ → ℕ → ℕ → Effect → Type 0
Yields key number k mask route (set_mc_entry n k' mask' route') =
    (bit_and key mask' ≡ k' → number ≤ n)
    × (n ≡ number → (k' ≡ k) × (mask' ≡ mask) × (route' ≡ route))
Yields key number k mask route _ = Unit

pub record RouterLaws (R : Router) : Type 0 where
  -- of the entries that match, the one with the lowest number counts
  pub first_hit :
      (table : List Effect) (key number k mask route : ℕ)
      → Memᴰ (set_mc_entry number k mask route) table
      → bit_and key mask ≡ k
      → All (Yields key number k mask route) table
      → R.route_of table key ≡ some route
  -- a copy goes to every core and over every link whose bit the route has
  pub to_core :
      (tables : ℕ → List Effect) (chip key route c : ℕ)
      → R.route_of (tables chip) key ≡ some route
      → (bit_and route (core c) == 0) ≡ false
      → R.Arrives tables chip key chip c
  pub to_link :
      (tables : ℕ → List Effect) (chip key route link next end c : ℕ)
      → R.route_of (tables chip) key ≡ some route
      → (bit_and route link == 0) ≡ false
      → R.neighbour chip link ≡ some next
      → R.Arrives tables next key end c
      → R.Arrives tables chip key end c
  -- the four chips, (x, y) having the number x * 256 + y
  pub north_of_0 : R.neighbour 0 north ≡ some 1
  pub east_of_0 : R.neighbour 0 east ≡ some 256
  pub n_east_of_0 : R.neighbour 0 n_east ≡ some 257
  pub south_of_1 : R.neighbour 1 south ≡ some 0
  pub west_of_256 : R.neighbour 256 west ≡ some 0
  pub s_west_of_257 : R.neighbour 257 s_west ≡ some 0

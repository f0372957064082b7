-- ===== src/Tests/Router.antt =====
-- A router that keeps to what Parallel/Board/Routing asks of one.
use mathlib.Core.List.{Memᴰ}
use spi_nnaker.Prelude.{
  ℕ, ◌≤◌, ◌≡◌, refl, bit_and, false, Option, some, none, List, [], ◌∷◌, if◌then◌else◌, leb, ◌==◌,
  All, arith,
}
use spi_nnaker.Device.{Effect, set_mc_entry}
use spi_nnaker.Device.Routes.{core, north, east, n_east, south, west, s_west}
use spi_nnaker.Parallel.Board.Router.{Router, RouterLaws, Yields}

abbrev pub Hit : Type 0
Hit = record { number : ℕ; route : ℕ }

abbrev pick : ℕ → ℕ → Option Hit → Option Hit
pick n r none = some (record { number = n; route = r })
pick n r (some h) = if leb n h.number then some (record { number = n; route = r }) else some h

abbrev better : ℕ → Effect → Option Hit → Option Hit
better key (set_mc_entry n k mask r) o = if bit_and key mask == k then pick n r o else o
better key _ o = o

-- The entry that counts.
pub best : List Effect → ℕ → Option Hit
best [] key = none
best (e ∷ es) key = better key e (best es key)

abbrev pub route_in : Option Hit → Option ℕ
route_in none = none
route_in (some h) = some h.route

abbrev Above : ℕ → ℕ → Option Hit → Type 0
Above number route none = Unit
Above number route (some h) = (number ≤ h.number) × (h.number ≡ number → h.route ≡ route)

abbrev Below : ℕ → Option Hit → Type 0
Below number none = ⊥
Below number (some h) = h.number ≤ number

better-Above :
    (key number k mask route : ℕ) (e : Effect) (o : Option Hit)
    → Yields key number k mask route e
    → Above number route o
    → Above number route (better key e o)
better-Above key number k mask route (set_mc_entry n k' mask' r) none y a = ground arith
better-Above key number k mask route (set_mc_entry n k' mask' r) (some h) y a = ground arith
better-Above key number k mask route (Effect.send_mc _ _) o y a = a
better-Above key number k mask route (Effect.set_timer_tick _) o y a = a
better-Above key number k mask route (Effect.delay _) o y a = a
better-Above key number k mask route (Effect.callback_on _ _ _) o y a = a
better-Above key number k mask route (Effect.callback_off _) o y a = a
better-Above key number k mask route (Effect.print _) o y a = a
better-Above key number k mask route Effect.start_simulation o y a = a

best-Above :
    (key number k mask route : ℕ) (table : List Effect)
    → All (Yields key number k mask route) table
    → Above number route (best table key)
unfolding best
best-Above key number k mask route [] y = tt
best-Above key number k mask route (e ∷ table) y =
    better-Above key number k mask route e (best table key) y.0
      (best-Above key number k mask route table y.1)

better-Below :
    (key number : ℕ) (e : Effect) (o : Option Hit) → Below number o → Below number (better key e o)
better-Below key number e none b = absurd b
better-Below key number (set_mc_entry n k' mask' r) (some h) b = ground arith
better-Below key number (Effect.send_mc _ _) (some h) b = b
better-Below key number (Effect.set_timer_tick _) (some h) b = b
better-Below key number (Effect.delay _) (some h) b = b
better-Below key number (Effect.callback_on _ _ _) (some h) b = b
better-Below key number (Effect.callback_off _) (some h) b = b
better-Below key number (Effect.print _) (some h) b = b
better-Below key number Effect.start_simulation (some h) b = b

hit-Below :
    (key number k mask route : ℕ) (o : Option Hit)
    → bit_and key mask ≡ k
    → Below number (better key (set_mc_entry number k mask route) o)
hit-Below key number k mask route none e = ground arith
hit-Below key number k mask route (some h) e = ground arith

best-Below :
    (key : ℕ) {number k mask route : ℕ} {table : List Effect}
    → Memᴰ (set_mc_entry number k mask route) table
    → bit_and key mask ≡ k
    → Below number (best table key)
unfolding best
best-Below key {number} {k} {mask} {route} (Memᴰ.head {xs} e) h =
    rw (← e) (hit-Below key number k mask route (best xs key) h)
best-Below key {number} (Memᴰ.tail {x} {xs} m) h =
    better-Below key number x (best xs key) (best-Below key m h)

between :
    (number route : ℕ) (o : Option Hit)
    → Above number route o
    → Below number o
    → route_in o ≡ some route
between number route none a b = absurd b
between number route (some h) a b = ground arith

pub route_of : List Effect → ℕ → Option ℕ
route_of table key = route_in (best table key)

abbrev pub neighbour : ℕ → ℕ → Option ℕ
neighbour chip link =
    if chip == 0
    then (if link == north
        then some 1
        else if link == east
        then some 256
        else if link == n_east
        then some 257
        else none)
    else if chip == 1
    then (if link == south then some 0 else none)
    else if chip == 256
    then (if link == west then some 0 else none)
    else if chip == 257
    then (if link == s_west then some 0 else none)
    else none

pub data Travels (tables : ℕ → List Effect) (key : ℕ) (end c : ℕ) : ℕ → Type 0 where
  here :
      (route : ℕ)
      → route_of (tables end) key ≡ some route
      → (bit_and route (core c) == 0) ≡ false
      → Travels tables key end c end
  over :
      (chip route link : ℕ) {next : ℕ}
      → route_of (tables chip) key ≡ some route
      → (bit_and route link == 0) ≡ false
      → neighbour chip link ≡ some next
      → Travels tables key end c next
      → Travels tables key end c chip

abbrev pub router : Router
router = record {
  route_of = route_of;
  neighbour = neighbour;
  Arrives = λ tables chip key end c. Travels tables key end c chip;
}

pub router-RouterLaws : RouterLaws router
unfolding route_of
router-RouterLaws = record {
  first_hit = λ table key number k mask route m e y.
      between number route (best table key) (best-Above key number k mask route table y)
        (best-Below key m e);
  to_core = λ tables chip key route c e b. Travels.here route e b;
  to_link = λ tables chip key route link next end c e b n t. Travels.over chip route link e b n t;
  north_of_0 = refl;
  east_of_0 = refl;
  n_east_of_0 = refl;
  south_of_1 = refl;
  west_of_256 = refl;
  s_west_of_257 = refl;
}

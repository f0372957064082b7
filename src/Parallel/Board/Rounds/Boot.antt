-- ===== src/Parallel/Board/Rounds/Boot.antt =====
-- The cores after `c_main` are in step.
use mathlib.Core.List.{Pairwise}
use mathlib.Core.List.Pairwise
use mathlib.Core.HLevel.{¬_prop}
use spi_nnaker.Prelude.{ℕ, ◌/◌, ◌%◌, ◌≤◌, ◌<◌, ◌≡◌, refl, List, [], ◌∷◌, map, All}
use spi_nnaker.Prelude.Loop.{for_each}
use spi_nnaker.Platform.{Platform, Laws}
use spi_nnaker.Parallel.Activity
use spi_nnaker.Parallel.Globals.{n_mfm}
use spi_nnaker.Parallel.Node.{Node, node_index}
use spi_nnaker.Parallel.Start.{initial, c_main, init_network, init_params, fill_buffers, is_master}
use spi_nnaker.Parallel.Board.{Place, booted}
use spi_nnaker.Parallel.Board.Safety.{boot, Reach-IsSafe}
use spi_nnaker.Parallel.Board.Gather.Slots.{AreApart}
use spi_nnaker.Parallel.Board.Rounds.{Team}
use spi_nnaker.Parallel.Board.Rounds.InStep.{IsInStep, Follows}

-- A core of the board whose index is below 59, and two different cores.
abbrev pub IsNodePlace : Place → Type 0
IsNodePlace p =
    (p.chip / 256 < 2)
    × (p.chip % 256 < 2)
    × (1 ≤ p.core)
    × (p.core ≤ 16)
    × (node_index p.chip p.core < n_mfm)

abbrev pub PlacesAreApart : Place → Place → Type 0
PlacesAreApart p q = ¬ ((p.chip ≡ q.chip) × (p.core ≡ q.core))

module _ (P : Platform) where
  open P use {Num}

  abbrev node_at : Place → Node Num
  node_at p = (booted P (λ i. p)).nodes 0

  -- The master and the nodes of a list of places.
  abbrev pub booted_team : List Place → Team Num
  booted_team places = record {
    master = (booted P (λ i. record { chip = 0; core = 1 })).master;
    nodes = map node_at places;
  }

  all_follow :
      (places : List Place)
      → All IsNodePlace places
      → All (Follows (booted_team []).master) (map node_at places)
  unfolding c_main init_network init_params initial fill_buffers for_each is_master
      Activity.init_mfm
  all_follow [] h = tt
  all_follow (p ∷ places) ((row, column, first, last, room), h) =
      ((refl, (row, column, first, last), room), all_follow places h)

  nodes_apart :
      {places : List Place}
      → Pairwise PlacesAreApart places
      → Pairwise AreApart (map node_at places)
  unfolding c_main init_network init_params initial fill_buffers for_each is_master
      Activity.init_mfm
  nodes_apart {places} h = Pairwise.map' {S = AreApart} node_at (λ a b. ¬_prop) {l = places} h

  pub booted-IsInStep :
      (places : List Place)
      → Laws P
      → All IsNodePlace places
      → Pairwise PlacesAreApart places
      → IsInStep (booted_team places)
  booted-IsInStep places laws h apart =
      let nowhere : ℕ → Place = λ i. record { chip = 0; core = 1 } in
      let safe = Reach-IsSafe P laws 0 nowhere (λ i lt. elim lt [ ]) boot tt in
      record {
        balancing = refl;
        master = safe.master;
        nodes = all_follow places h;
        apart = nodes_apart apart;
      }

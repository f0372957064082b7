-- ===== src/Tests/Rounds.antt =====
-- Two ticks after the start, with a master, two nodes and the camera.
use mathlib.Core.HLevel.{¬_prop}
use mathlib.Core.Logic.{∥∥₁_elim}
use mathlib.Core.List.{Memᴰ, Pairwise, Pairwise-singleton}
use spi_nnaker.Prelude.{◌≡◌, refl, ap, ◌∙◌, ◌↔◌, List, [], ◌∷◌, All, arith}
use spi_nnaker.Prelude.Int.{ℤ}
use spi_nnaker.Platform.Fixed.{fixed, fixed-Laws}
use spi_nnaker.Parallel.Globals.{Globals}
use spi_nnaker.Parallel.Node.{Node, node_index, core_nb}
use spi_nnaker.Parallel.Messages.{Packet}
use spi_nnaker.Parallel.Board.Round.{taught}
use spi_nnaker.Parallel.Master.{Master, update}
use spi_nnaker.Parallel.Master.Fault.{ProductsAreNumbers}
use spi_nnaker.Parallel.Board.{Place}
use spi_nnaker.Parallel.Board.MasterArrays.{IsNumeric}
use spi_nnaker.Parallel.Board.Rounds.{Team, Input, Rounds, sent_at, after_tick, after_all}
use spi_nnaker.Parallel.Board.Rounds.Boot.{
  IsNodePlace, PlacesAreApart, booted_team, booted-IsInStep,
}
use spi_nnaker.Parallel.Board.Rounds.Agree.{CanRun, Rounds-iff}

-- Core 2 of chip 1 and core 4 of chip 0.
abbrev places : List Place
places = record { chip = 1; core = 2 } ∷ record { chip = 0; core = 4 } ∷ []

all_node_places : All IsNodePlace places
unfolding node_index core_nb
all_node_places = (
  (omega arith, omega arith, omega arith, omega arith, omega arith),
  ((omega arith, omega arith, omega arith, omega arith, omega arith), tt),
)

other_chip :
    (p : Place)
    → Memᴰ p (record { chip = 0; core = 4 } ∷ [])
    → PlacesAreApart (record { chip = 1; core = 2 }) p
other_chip p (Memᴰ.head e) (same_chip, _) = omega (arith, same_chip ∙ ap (λ (q : Place). q.chip) e)
other_chip p (Memᴰ.tail w) h = elim w [ ]

apart : Pairwise PlacesAreApart places
apart =
    Pairwise.cons (λ p w. ∥∥₁_elim w ¬_prop (other_chip p))
      (Pairwise-singleton _ (record { chip = 0; core = 4 }))

-- Every fixed-point value is a number.
numeric : (m : Master ℤ) → IsNumeric fixed m
numeric m = ground arith

numbers : (g : Globals ℤ) → ProductsAreNumbers fixed fixed-Laws g
numbers g = ground arith

all_numbers :
    (p : Packet) (nodes : List (Node ℤ))
    → All (λ n. ProductsAreNumbers fixed fixed-Laws (taught fixed p n).network) nodes
all_numbers p [] = tt
all_numbers p (n ∷ nodes) = (numbers (taught fixed p n).network, all_numbers p nodes)

-- Two ticks, the second of which saves, and an event of the camera between them.
abbrev first : Input
first = record { time = 1999; cameras = record { time = 1999; key = 0x40b0 } ∷ [] }

abbrev last : Input
last = record { time = 2000; cameras = [] }

abbrev inputs : List Input
inputs = first ∷ last ∷ []

fixed-CanRun : (s : Team ℤ) → CanRun fixed fixed-Laws inputs s
fixed-CanRun s =
    let s' = after_tick fixed first s in
    (
      refl,
      numeric (update fixed 1999 s.master).0,
      all_numbers (sent_at fixed 1999 s.master) s.nodes,
      (omega arith, tt),
      (
        tt,
        numeric (update fixed 2000 s'.master).0,
        all_numbers (sent_at fixed 2000 s'.master) s'.nodes,
        tt,
        tt,
      ),
    )

Rounds-iff_example :
    Rounds fixed inputs
      (booted_team fixed places)
      (after_all fixed inputs (booted_team fixed places))
    ↔ (after_all fixed inputs (booted_team fixed places)
        ≡ after_all fixed inputs (booted_team fixed places))
Rounds-iff_example =
    Rounds-iff fixed fixed-Laws inputs (booted_team fixed places)
      (after_all fixed inputs (booted_team fixed places))
      (booted-IsInStep fixed places fixed-Laws all_node_places apart)
      (fixed-CanRun (booted_team fixed places))

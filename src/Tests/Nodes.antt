-- ===== src/Tests/Nodes.antt =====
-- A master and two nodes on different chips.
use mathlib.Core.HLevel.{¬_prop}
use mathlib.Core.Logic.{∥∥₁_elim}
use mathlib.Core.List.{Memᴰ, Pairwise, Pairwise-singleton}
use spi_nnaker.Prelude.{ℕ, ap, ◌∙◌, List, [], ◌∷◌, arith}
use spi_nnaker.Prelude.Int.{ℤ}
use spi_nnaker.Track.{start}
use spi_nnaker.Sequential.Globals.{unbalanced}
use spi_nnaker.Parallel.Node.{Node}
use spi_nnaker.Parallel.Master.{Master}
use spi_nnaker.Parallel.Board.Gather.{Answer, AnswersAreApart}
use spi_nnaker.Tests.Data.{parallel, node}

abbrev pub master : Master ℤ
master = record { tracker = start; state = unbalanced; sim_count = 1; network = parallel }

-- Core 4 of the master's chip.
abbrev pub neighbour : Node ℤ
neighbour = record node { network = record parallel { chip_id = 0; core_id = 4 } }

abbrev pub nodes : List (Answer ℤ)
nodes = (5, node) ∷ (6, neighbour) ∷ []

abbrev chip_of : Answer ℤ → ℕ
chip_of a = a.1.network.chip_id

other_chip : (a : Answer ℤ) → Memᴰ a ((6, neighbour) ∷ []) → AnswersAreApart (5, node) a
other_chip a (Memᴰ.head e) (same_chip, _) = omega (arith, same_chip ∙ ap chip_of e)
other_chip a (Memᴰ.tail w) h = elim w [ ]

pub nodes_apart : Pairwise AnswersAreApart nodes
nodes_apart =
    Pairwise.cons (λ a w. ∥∥₁_elim w ¬_prop (other_chip a)) (Pairwise-singleton _ (6, neighbour))

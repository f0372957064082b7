-- ===== src/Tests/Round.antt =====
-- One round of the parallel version, from the tick of a master with core 3 of chip 256, and with core 4
-- of its own chip besides.
use mathlib.Core.List.{Permᴰ}
use spi_nnaker.Prelude.{ℕ, List, ◌/◌, ◌^◌, ◌<◌, ◌≡◌, refl, ◌≢◌, bit_and, some, [], ◌∷◌, All, arith}
use spi_nnaker.Prelude.Int.{ℤ, ◌-ℤ◌}
use spi_nnaker.Platform.Fixed.{fixed, fixed-Laws}
use spi_nnaker.Device.{send_mc}
use spi_nnaker.Device.Routes.{init_chip_io}
use spi_nnaker.Parallel.Population
use spi_nnaker.Parallel.Messages.{pack_error}
use spi_nnaker.Parallel.Node.{Node, node_index, core_nb, learn, rec_err, event_node}
use spi_nnaker.Parallel.Master.{Master, send_err, event_master, error_fields}
use spi_nnaker.Parallel.Master.Fault.{ProductsAreNumbers}
use spi_nnaker.Parallel.Board.Routing.{Core, node_cores}
use spi_nnaker.Parallel.Board.Round.{message, taught, answer, informed, round_trip}
use spi_nnaker.Parallel.Board.Gather.{Answer, expected, deliver}
use spi_nnaker.Parallel.Board.Gather.Slots.{slot}
use spi_nnaker.Parallel.Board.Tick.{IsListening, AnswersWhatItLearns, all_taught, whole_round}
use spi_nnaker.Tests.Router.{router, router-RouterLaws}
use spi_nnaker.Parallel.Master.Stream.{ErrorsFit}
use spi_nnaker.Tests.Data.{parallel, node}
use spi_nnaker.Tests.Nodes.{master, neighbour, nodes, nodes_apart}

abbrev after : Node ℤ
after = taught fixed (message fixed 64 60 parallel) node

errors_fit : ErrorsFit fixed fixed-Laws parallel.critic
unfolding ◌-ℤ◌
errors_fit = (
  record { number = refl; above = refl; below = refl },
  record { number = refl; above = refl; below = refl },
)

numbers : ProductsAreNumbers fixed fixed-Laws after.network
numbers = ground arith

index_fits : node_index after.network.chip_id after.network.core_id < 59
unfolding learn rec_err Population.mfm Population.update_a Population.update_v node_index core_nb
index_fits = omega arith

fresh : bit_and ((message fixed 64 60 parallel).key / 2 ^ 20) 0xff ≢ 0
unfolding pack_error error_fields ◌-ℤ◌
fresh = ground arith

round_trip_example :
    let p = message fixed 64 60 parallel in
    let q = answer fixed after in
    ((send_err fixed 64 60 parallel).1 ≡ send_mc p.key p.payload ∷ [])
    × All (λ (c : Core). router.Arrives init_chip_io 0 p.key c.chip c.number) node_cores
    × (event_node fixed p.key p.payload node ≡ (after, send_mc q.key q.payload ∷ []))
    × (router.Arrives init_chip_io 0 q.key 0 1
        × router.Arrives init_chip_io 1 q.key 0 1
        × router.Arrives init_chip_io 256 q.key 0 1
        × router.Arrives init_chip_io 257 q.key 0 1)
    × (event_master fixed 7 q.key q.payload master ≡ some (informed fixed after master))
round_trip_example =
    round_trip fixed fixed-Laws router router-RouterLaws 64 60 7 parallel node master (omega arith)
      (omega arith) errors_fit fresh numbers index_fits

listening : All (IsListening fixed fixed-Laws (message fixed 64 60 parallel)) nodes
unfolding learn rec_err Population.mfm Population.update_a Population.update_v node_index core_nb
listening = (
  (fresh, (numbers, (omega arith, omega arith, omega arith, omega arith), omega arith)),
  ((fresh, (numbers, (omega arith, omega arith, omega arith, omega arith), omega arith)), tt),
)

-- The answer of the second node arrives first.
abbrev arrived : List (Answer ℤ)
arrived =
    let p = message fixed 64 60 parallel in
    (6, taught fixed p neighbour) ∷ (5, taught fixed p node) ∷ []

whole_round_example :
    let p = message fixed 64 60 parallel in
    ((send_err fixed 64 60 parallel).1 ≡ send_mc p.key p.payload ∷ [])
    × All (AnswersWhatItLearns fixed p) nodes
    × (m' : Master ℤ) × (deliver fixed arrived master ≡ some m')
    × ((j : ℕ) → slot fixed j m' ≡ expected fixed (all_taught fixed p nodes) j master)
whole_round_example =
    whole_round fixed fixed-Laws 64 60 parallel nodes arrived master (omega arith) (omega arith)
      errors_fit listening nodes_apart (Permᴰ.swap refl refl) (refl, refl, refl)

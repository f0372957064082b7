-- ===== src/Tests/Gather.antt =====
-- Two nodes' nodes at the master, and the copies of the code in the two versions.
use mathlib.Core.List.{Permᴰ}
use spi_nnaker.Prelude.{ℕ, ◌≡◌, refl, some, List, [], ◌∷◌, All, arith}
use spi_nnaker.Prelude.Int.{ℤ, pos}
use spi_nnaker.Platform.Fixed.{fixed, fixed-Laws}
use spi_nnaker.Network
use spi_nnaker.Sequential.Learning.{temporal_error}
use spi_nnaker.Parallel.Node.{node_index, core_nb}
use spi_nnaker.Parallel.Master.{Master, update_error}
use spi_nnaker.Parallel.Master.Fault.{ProductsAreNumbers}
use spi_nnaker.Parallel.Board.Gather.{
  Answer, IsReady, expected, deliver, deliver-slots, deliver-perm,
}
use spi_nnaker.Parallel.Board.Gather.Slots.{slot}
use spi_nnaker.Agreement.Reward.{update_error-agrees}
use spi_nnaker.Tests.Data.{parallel, node}
use spi_nnaker.Tests.Nodes.{master, neighbour, nodes, nodes_apart}

abbrev others : List (Answer ℤ)
others = (6, neighbour) ∷ (5, node) ∷ []

numbers : ProductsAreNumbers fixed fixed-Laws parallel
numbers = ground arith

ready : All (IsReady fixed fixed-Laws) nodes
unfolding node_index core_nb
ready = (
  (numbers, (omega arith, omega arith, omega arith, omega arith), omega arith),
  ((numbers, (omega arith, omega arith, omega arith, omega arith), omega arith), tt),
)

deliver-slots_example :
    (m' : Master ℤ) × (deliver fixed nodes master ≡ some m')
    × ((j : ℕ) → slot fixed j m' ≡ expected fixed nodes j master)
deliver-slots_example =
    deliver-slots fixed fixed-Laws nodes master ready nodes_apart (refl, refl, refl)

deliver-perm_example : deliver fixed nodes master ≡ deliver fixed others master
deliver-perm_example = deliver-perm fixed fixed-Laws master (Permᴰ.swap refl refl) ready nodes_apart

update_error-agrees_example :
    let h = update_error fixed (pos 64) (pos 60) 5 parallel in
    let b = Network.normalize_ball_params fixed (pos 64) (pos 60) 5 parallel.ball in
    let error_x =
      temporal_error fixed (Network.reward_x fixed b) h.critic.old_v_x parallel.critic.old_v_x in
    let error_y =
      temporal_error fixed (Network.reward_y fixed b) h.critic.old_v_y parallel.critic.old_v_y in
    (h.ball ≡ b)
    × (h.critic.error_x ≡ Network.clamp fixed error_x)
    × (h.critic.error_y ≡ Network.clamp fixed error_y)
update_error-agrees_example = update_error-agrees fixed (pos 64) (pos 60) 5 parallel

-- ===== src/Tests/Board.antt =====
-- The board: its routing, and its reachable states.
use mathlib.Core.List.{Memᴰ}
use spi_nnaker.Prelude.{ℕ, ◌≢◌, refl, none, ◌++◌, All, arith}
use spi_nnaker.Prelude.Int.{ℤ}
use spi_nnaker.Platform.Fixed.{fixed, fixed-Laws}
use spi_nnaker.Device.{send_mc, motors_key, send_norm_motor_command, send_motor_command}
use spi_nnaker.Device.Routes.{init_chip_io}
use spi_nnaker.Parallel.Messages.{is_error}
use spi_nnaker.Parallel.Node.{node_index, core_nb}
use spi_nnaker.Parallel.Master.{event_master}
use spi_nnaker.Parallel.Master
use spi_nnaker.Sequential.Controller.{event_polarity}
use spi_nnaker.Parallel.Board.{Board, Place, Step, booted, IsNumeric}
use spi_nnaker.Parallel.Board.Routing.{Core, node_cores, error_arrives, camera_arrives}
use spi_nnaker.Parallel.Board.Safety.{
  IsSafe, AllPlaced, Reach, IsNumericRun, boot, next, Reach-IsSafe, event_master-ne-none,
}
use spi_nnaker.Tests.Router.{router, router-RouterLaws}

error_arrives_example :
    All (λ (p : Core). router.Arrives init_chip_io 0 0xa010_4020 p.chip p.number) node_cores
unfolding is_error
error_arrives_example = error_arrives router router-RouterLaws 0xa010_4020 refl

camera_arrives_example : router.Arrives init_chip_io 0 0x40b0 0 1
unfolding event_polarity
camera_arrives_example = camera_arrives router router-RouterLaws 0x40b0 (omega arith) refl

-- One node, core 2 of chip 0.
abbrev places : ℕ → Place
places i = record { chip = 0; core = 2 }

placed : AllPlaced 1 places
unfolding node_index core_nb
placed i h = omega arith

always-IsNumeric : (b : Board ℤ) → IsNumeric fixed 1 b
always-IsNumeric b = (ground arith, λ i h. ground arith)

-- The board after the first tick.
abbrev ticked : Board ℤ
ticked = record (booted fixed places) {
  master = (Master.update fixed 1 (booted fixed places).master).0;
  sent = (Master.update fixed 1 (booted fixed places).master).1 ++ (booted fixed places).sent;
}

ticked-Reach : Reach fixed 1 places ticked
ticked-Reach = next boot (Step.tick 1)

ticked-IsNumericRun : IsNumericRun fixed 1 places ticked-Reach
unfolding ticked-Reach
ticked-IsNumericRun = (tt, always-IsNumeric ticked)

Reach-IsSafe_example : IsSafe 1 places ticked
Reach-IsSafe_example =
    Reach-IsSafe fixed fixed-Laws 1 places placed ticked-Reach ticked-IsNumericRun

-- The motor command of that tick.
command : (payload : ℕ) × Memᴰ (send_mc motors_key payload) ticked.sent
unfolding Master.update Master.control Master.move send_norm_motor_command send_motor_command
command = (_, Memᴰ.head refl)

event_master-ne-none_example : event_master fixed 2 motors_key command.0 ticked.master ≢ none
event_master-ne-none_example =
    event_master-ne-none fixed fixed-Laws 1 places placed 2 motors_key command.0 ticked-Reach
      ticked-IsNumericRun command.1

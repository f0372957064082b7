-- ===== src/Tests/Machines.antt =====
-- The controllers and the motor commands.
use spi_nnaker.Prelude.{ℕ, ◌<◌, All, ◌%◌, ◌≡◌, refl, ◌⊎◌, true, ◌==◌, List, [], ◌∷◌, arith}
use spi_nnaker.Prelude.Int.{◌-ℤ◌}
use spi_nnaker.Platform.Fixed.{fixed, fixed-Laws}
use spi_nnaker.Device.Motor.{IsMotorPacket}
use spi_nnaker.Sequential.Globals.{saved, n_mfm}
use spi_nnaker.Network
use spi_nnaker.Sequential.Init
use spi_nnaker.Sequential.Init.Centers.{placed}
use spi_nnaker.Sequential.Learning
use spi_nnaker.Sequential.Learning.Commands.{move-IsMotorPacket}
use spi_nnaker.Sequential.Controller.{c_main, at_start}
use spi_nnaker.Sequential.Controller.Safety.{IsSafe, started-IsSafe}
use spi_nnaker.Sequential.Controller.Machine.{tick, camera, Call, after, after-saved}
use spi_nnaker.Parallel.Master
use spi_nnaker.Parallel.Master.Commands.{master_move-IsMotorPacket}
use spi_nnaker.Tests.Data.{sequential, controller, parallel}

abbrev calls : List Call
calls = camera 3 0x4081 ∷ tick 4 ∷ tick 5000 ∷ []

after-saved_example :
    ((after fixed calls (record controller { state = saved })).state ≡ saved)
    × ((after fixed calls (record controller { state = saved })).network ≡ controller.network)
after-saved_example = after-saved fixed calls (record controller { state = saved }) refl

move-IsMotorPacket_example :
    IsMotorPacket (Learning.move fixed 7 sequential).1
    ⊎ ((7 % 200 == 0 ≡ true) × ((Learning.move fixed 7 sequential).1 ≡ []))
unfolding ◌-ℤ◌
move-IsMotorPacket_example =
    move-IsMotorPacket fixed fixed-Laws 7 sequential (ground arith) (ground arith)
      (record { number = refl; above = refl; below = refl })
      (record { number = refl; above = refl; below = refl })

master_move-IsMotorPacket_example : IsMotorPacket (Master.move fixed parallel).2
master_move-IsMotorPacket_example =
    master_move-IsMotorPacket fixed fixed-Laws parallel (ground arith) (ground arith)

started-IsSafe_example :
    ((c_main fixed (at_start fixed)).0.network.n ≡ Network.center_of fixed 0 0)
    × All (λ (p : ℕ × ℕ). Init.center_index p.0 p.1 < n_mfm) placed
    × IsSafe (after fixed calls (c_main fixed (at_start fixed)).0)
started-IsSafe_example = started-IsSafe fixed calls

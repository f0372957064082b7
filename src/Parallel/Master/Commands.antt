-- ===== src/Parallel/Master/Commands.antt =====
-- The motor commands of the master's `move`.
use spi_nnaker.Prelude.{◌≡◌, true}
use spi_nnaker.Platform.{Platform, Laws}
use spi_nnaker.Calc.Bounds.{clamp-IsWithin}
use spi_nnaker.Parallel.Activity
use spi_nnaker.Device.Motor.{IsMotorPacket, send_norm_motor_command-IsMotorPacket}
use spi_nnaker.Parallel.Globals.{Globals}
use spi_nnaker.Parallel.Master.{outputs, move}

module _ (P : Platform) (laws : Laws P) where
  open P use {Num, same}

  -- When the two outputs are numbers, the master's `move` sends exactly one motor packet, whatever
  -- the nodes have sent. Its x lies between 1650 and 2650, which is above MOTOR_MAX, and its y between 1500
  -- and 2500.
  pub master_move-IsMotorPacket :
      (g : Globals Num)
      → let o = outputs P (Activity.noise P g.seed).0 g in
        same o.0 o.0 ≡ true → same o.1 o.1 ≡ true → IsMotorPacket (move P g).2
  unfolding move
  master_move-IsMotorPacket g nx ny =
      let o = outputs P (Activity.noise P g.seed).0 g in
      send_norm_motor_command-IsMotorPacket P laws _ _ (clamp-IsWithin P laws o.0 nx)
        (clamp-IsWithin P laws o.1 ny)

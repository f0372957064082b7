-- ===== src/Sequential/Learning/Commands.antt =====
-- The motor commands of the sequential `move`.
use spi_nnaker.Prelude.{ℕ, ◌%◌, ◌≡◌, ◌⊎◌, true, [], ◌==◌, arith}
use spi_nnaker.Platform.{Platform, IsWithin, Laws}
use spi_nnaker.Calc.Bounds.{clamp-IsWithin, zero-IsWithin}
use spi_nnaker.Device.Motor.{IsMotorPacket, send_norm_motor_command-IsMotorPacket}
use spi_nnaker.Sequential.Globals.{Globals}
use spi_nnaker.Sequential.Learning.{outputs, move}

module _ (P : Platform) (laws : Laws P) where
  open P use {Num, same, neg, decimal}

  -- When the two outputs are numbers and the ball's position lies between -1 and 1, `move` sends one
  -- motor packet, whatever the weights, or nothing, at a multiple of 200 only. The packet's x lies between
  -- 1650 and 2650, which is above MOTOR_MAX, and its y between 1500 and 2500.
  pub move-IsMotorPacket :
      (t : ℕ) (g : Globals Num)
      → same (outputs P g).0 (outputs P g).0 ≡ true
      → same (outputs P g).1 (outputs P g).1 ≡ true
      → IsWithin P (neg (decimal 1 0)) (decimal 1 0) g.ball.position.x
      → IsWithin P (neg (decimal 1 0)) (decimal 1 0) g.ball.position.y
      → IsMotorPacket (move P t g).1 ⊎ ((t % 200 == 0 ≡ true) × ((move P t g).1 ≡ []))
  unfolding move
  move-IsMotorPacket t g nx ny wx wy =
      let sent = send_norm_motor_command-IsMotorPacket P laws in
      let zero_in = zero-IsWithin P laws in
      let centre = sent (decimal 0 0) (decimal 0 0) zero_in zero_in in
      let back = sent g.ball.position.x g.ball.position.y wx wy in
      let x_in = clamp-IsWithin P laws (outputs P g).0 nx in
      let y_in = clamp-IsWithin P laws (outputs P g).1 ny in
      let learned = sent _ _ x_in y_in in ground arith

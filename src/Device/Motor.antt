-- ===== src/Device/Motor.antt =====
-- The motor command of a control value between -1 and 1.
use spi_nnaker.Prelude.{
  ℕ, ◌+◌, ◌*◌, ◌/◌, ◌%◌, ◌^◌, ◌≤◌, ◌<◌, ◌≡◌, ap, bit_or, List, [], ◌∷◌, arith, bit_or_field,
}
use spi_nnaker.Prelude.Int.{ℤ, pos, ◌+ℤ◌, ◌≤ℤ◌, to_uint}
use spi_nnaker.Platform.{Platform, IsWithin, Laws}
use spi_nnaker.Device.{
  Effect, send_mc, ◌<<<◌, motors_key, motor_x_center, motor_y_center, motor_position,
  send_norm_motor_command,
}

-- The two commands of a payload, x in the upper half.
unfoldable pub command_x : ℕ → ℕ
command_x payload = payload / 2 ^ 16

unfoldable pub command_y : ℕ → ℕ
command_y payload = payload % 2 ^ 16

-- One packet to the motors, with both commands within 500 of their centres.
pub record IsMotorPacket (effects : List Effect) : Type 0 where
  pub payload : ℕ
  pub packet : effects ≡ send_mc motors_key payload ∷ []
  pub x_low : 1650 ≤ command_x payload
  pub x_high : command_x payload ≤ 2650
  pub y_low : 1500 ≤ command_y payload
  pub y_high : command_y payload ≤ 2500

around_center :
    (r : ℤ) (center : ℕ)
    → pos 0 ≤ℤ r +ℤ pos 500
    → r ≤ℤ pos 500
    → 500 ≤ center
    → center ≤ 3000
    → (center ≤ to_uint (r +ℤ pos center) + 500) × (to_uint (r +ℤ pos center) ≤ center + 500)
unfolding ◌+ℤ◌
around_center r center low high lo hi = ground arith

pub motor_payload : (x y : ℕ) → x < 2 ^ 16 → y < 2 ^ 16 → bit_or y (x <<< 16) ≡ x * 2 ^ 16 + y
motor_payload x y hx hy = ground (arith, bit_or_field 16 16 0 y x)

module _ (P : Platform) (laws : Laws P) where
  open P use {Num, neg, decimal}

  position_bounds :
      (v : Num) (center : ℕ)
      → IsWithin P (neg (decimal 1 0)) (decimal 1 0) v
      → 500 ≤ center
      → center ≤ 3000
      → (center ≤ to_uint (motor_position P v center) + 500)
        × (to_uint (motor_position P v center) ≤ center + 500)
  unfolding motor_position
  position_bounds v center w lo hi =
      let (low, high) = laws.to_int_single v 500 (omega arith) w in
      around_center _ center low high lo hi

  -- A control value between -1 and 1 gives one packet to the motors, with x between 1650 and 2650 and y
  -- between 1500 and 2500, in separate halves of the payload.
  pub send_norm_motor_command-IsMotorPacket :
      (x y : Num)
      → IsWithin P (neg (decimal 1 0)) (decimal 1 0) x
      → IsWithin P (neg (decimal 1 0)) (decimal 1 0) y
      → IsMotorPacket (send_norm_motor_command P x y)
  unfolding send_norm_motor_command command_x command_y
  send_norm_motor_command-IsMotorPacket x y wx wy =
      let mx = to_uint (motor_position P x motor_x_center) in
      let my = to_uint (motor_position P y motor_y_center) in
      let bx = position_bounds x motor_x_center wx (omega arith) (omega arith) in
      let by = position_bounds y motor_y_center wy (omega arith) (omega arith) in
      let e = motor_payload mx my (omega arith) (omega arith) in
      record {
        payload = mx * 2 ^ 16 + my;
        packet = ap (λ k. send_mc motors_key k ∷ []) e;
        x_low = omega arith;
        x_high = omega arith;
        y_low = omega arith;
        y_high = omega arith;
      }

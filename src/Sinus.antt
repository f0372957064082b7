-- ===== src/Sinus.antt =====
-- tests/sinus/sinus.c and tests/sinus/sinus.h: one motor follows a sine.
pub mod Wave
use spi_nnaker.Prelude.{ℕ, ◌%◌, ◌^◌, bit_or, List, [], ◌∷◌, ◌++◌, if◌then◌else◌, ◌==◌}
use spi_nnaker.Prelude.Int.{ℤ, pos, to_uint}
use spi_nnaker.Platform.{Platform}
use spi_nnaker.Device.{
  Effect, Event, Handler, Line, send_mc, set_mc_entry, ◌<<<◌, motors_key, send_motor_command,
}
use spi_nnaker.Device.Routes.{east, west}

-- `TICK_TIME`
abbrev pub tick_time : ℕ
tick_time = 100_000

abbrev pub motor_x_center : ℕ
motor_x_center = 2110

abbrev pub motor_y_center : ℕ
motor_y_center = 1970

unfoldable pub init_io : List Effect
init_io = set_mc_entry 0x2 motors_key 0xffff_0000 east ∷ set_mc_entry 0x4 0x41 0xffff_ffff west ∷ []

unfoldable pub start_devices : List Effect
start_devices = send_mc motors_key (bit_or motor_y_center (motor_x_center <<< 16)) ∷ []

unfoldable pub c_main : ℕ → ℕ → List Effect
unfolding init_io start_devices
c_main core_id chip_id =
    Effect.print (Line.core_and_chip core_id chip_id)
    ∷ Effect.set_timer_tick tick_time
    ∷ Effect.callback_on Event.timer_tick Handler.update 1
    ∷ (init_io ++ (start_devices ++ (Effect.start_simulation ∷ [])))

-- What `update` sends and prints at a coordinate.
unfoldable pub move_to : ℤ → List Effect
unfolding send_motor_command
move_to c = send_motor_command 2000 (to_uint c) ++ (Effect.print (Line.coord_is c) ∷ [])

module _ (P : Platform) where
  open P use {Num, ◌⊕◌, ◌⊗◌, ◌⊘◌, single, sin, decimal, of_int, to_int}

  infixl 65 ◌⊕◌
  infixl 70 ◌⊗◌ ◌⊘◌
  -- `2.0*3.1415*(sim_time % 360)/360.0`, rounded to `float`
  unfoldable pub rad : ℕ → Num
  rad sim_time =
      single (decimal 2 0 ⊗ decimal 31415 4 ⊗ of_int (pos (sim_time % 360)) ⊘ decimal 360 0)

  -- `(int)(500*(s) + 2000)` for a `float` s
  unfoldable pub coord : Num → ℤ
  coord s = to_int (single (single (of_int (pos 500) ⊗ s) ⊕ of_int (pos 2000)))

  -- The count of the ticks arrives as a `uint`, which wraps at 2 ^ 32.
  unfoldable pub update : ℕ → List Effect
  unfolding rad coord move_to
  update ticks =
      let sim_time = ticks % 2 ^ 32 in
      if sim_time % 2 == 0 then move_to (coord (single (sin (rad sim_time)))) else []

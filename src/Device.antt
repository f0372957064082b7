-- ===== src/Device.antt =====
-- communication.c and communication.h: the motor commands and the devices, which the two versions
-- share, and what a call of the SpiNNaker API leaves behind.
pub mod Motor
pub mod Routes
use spi_nnaker.Prelude.{
  ℕ, ◌-◌, ◌*◌, ◌/◌, ◌%◌, ◌^◌, bit_or, ◌&&◌, ◌==◌, if◌then◌else◌, List, [], ◌∷◌,
}
use spi_nnaker.Prelude.Int.{ℤ, pos, ◌+ℤ◌, to_uint}
use spi_nnaker.Platform.{Platform}

-- The events for which a callback is set.
pub data Event : Type 0 where
  mc_packet_received timer_tick : Event

-- The callbacks.
pub data Handler : Type 0 where
  update camera_event event_master event_node : Handler
  send_mc_packet_angles send_mc_packet_rates process_mc_packet : Handler
  update_chip0 event_node_chip0 event_master_chip0 update_chip1 event_rec_chip1 : Handler

-- A line that `io_printf` prints, with its numbers.
pub data Line : Type 0 where
  banner : Line
  w_v_x_line w_v_y_line w_a_theta_line w_a_psi_line : ℕ → ℤ → Line
  -- core and chip of the node
  node_open : ℕ → ℕ → Line
  node_w_v_x node_w_v_y node_w_a_theta node_w_a_psi : ℤ → Line
  node_close : Line
  sending_error sending_64 : Line
  -- with the simulation step
  received_15 received_64 : ℕ → Line
  -- core and chip
  core_and_chip : ℕ → ℕ → Line
  coord_is : ℤ → Line

-- The calls of the SpiNNaker API that change something outside the program, in their order.
pub data Effect : Type 0 where
  -- spin1_send_mc_packet: key and payload
  send_mc : ℕ → ℕ → Effect
  -- spin1_set_mc_table_entry: entry, key, mask, route
  set_mc_entry : ℕ → ℕ → ℕ → ℕ → Effect
  set_timer_tick : ℕ → Effect
  -- spin1_delay_us
  delay : ℕ → Effect
  callback_on : Event → Handler → ℕ → Effect
  callback_off : Event → Effect
  print : Line → Effect
  start_simulation : Effect

-- `x << k` of an `unsigned int`
infixl 60 ◌<<<◌
abbrev pub ◌<<<◌ : ℕ → ℕ → ℕ
x <<< k = x * 2 ^ k % 2 ^ 32

abbrev pub mgmt_bit : ℕ
mgmt_bit = 0x400

abbrev pub evds1_enable : ℕ
evds1_enable = 0x45

-- `((252 << 24) | (255 << 16))`
abbrev pub motors_key : ℕ
motors_key = bit_or (252 <<< 24) (255 <<< 16)

abbrev pub motor_min : ℕ
motor_min = 1500

abbrev pub motor_max : ℕ
motor_max = 2500

-- `((MOTOR_MAX - MOTOR_MIN) / 2)`
abbrev pub motor_delta : ℕ
motor_delta = (motor_max - motor_min) / 2

abbrev pub motor_x_center : ℕ
motor_x_center = 2150

abbrev pub motor_y_center : ℕ
motor_y_center = 2000

unfoldable pub start_devices : List Effect
start_devices =
    send_mc motors_key (bit_or motor_y_center (motor_x_center <<< 16))
    ∷ send_mc (bit_or evds1_enable mgmt_bit) 1
    ∷ []

-- `startDevices` of the parallel version, which only the master core follows.
unfoldable pub start_chip_devices : ℕ → ℕ → List Effect
start_chip_devices chip_id core_id =
    if chip_id == 0 && core_id == 1
    then send_mc motors_key (bit_or motor_y_center (motor_x_center <<< 16))
      ∷ send_mc (bit_or evds1_enable mgmt_bit) 1
      ∷ []
    else []

unfoldable pub stop_devices : List Effect
stop_devices = send_mc (bit_or evds1_enable mgmt_bit) 0 ∷ []

unfoldable pub send_motor_command : ℕ → ℕ → List Effect
send_motor_command motor_x motor_y = send_mc motors_key (bit_or motor_y (motor_x <<< 16)) ∷ []

module _ (P : Platform) where
  open P use {Num, ◌⊗◌, single, of_int, to_int}

  infixl 70 ◌⊗◌
  -- `(int)(v*MOTOR_DELTA)`, the centre added
  unfoldable pub motor_position : Num → ℕ → ℤ
  motor_position v center = to_int (single (v ⊗ of_int (pos motor_delta))) +ℤ pos center

  unfoldable pub send_norm_motor_command : Num → Num → List Effect
  unfolding motor_position send_motor_command
  send_norm_motor_command x y =
      send_motor_command (to_uint (motor_position x motor_x_center))
        (to_uint (motor_position y motor_y_center))

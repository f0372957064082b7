-- ===== src/PlotTracker.antt =====
-- tests/data_plotters/tracker.c: the position filter on unsigned numbers, with the speed and the
-- acceleration that the plot scripts ask for. An `int` is an integer.
pub mod Agrees
pub mod Speeds
pub mod Bounds
use spi_nnaker.Prelude.{
  ℕ, ◌+◌, ◌-◌, ◌/◌, ◌%◌, ◌^◌, List, if◌then◌else◌, get_or, ltb, replicate, set,
}
use spi_nnaker.Prelude.Int.{ℤ, pos, negsuc, ◌-ℤ◌, ◌*ℤ◌}

-- `INV_TICK_TIME`
abbrev pub inv_tick_time : ℤ
inv_tick_time = pos 10

-- The globals.
pub record Plot : Type 0 where
  pub x_buffer : List ℕ
  pub y_buffer : List ℕ
  pub total_sum_x : ℕ
  pub total_sum_y : ℕ
  pub curr_index : ℕ
  pub x_pos : ℕ
  pub y_pos : ℕ
  pub old_x_pos : ℕ
  pub old_y_pos : ℕ
  pub x_speed : ℤ
  pub y_speed : ℤ
  pub old_x_speed : ℤ
  pub old_y_speed : ℤ
  pub x_acceleration : ℤ
  pub y_acceleration : ℤ

-- Their initial values.
abbrev pub at_rest : Plot
at_rest = record {
  x_buffer = replicate 16 0;
  y_buffer = replicate 16 0;
  total_sum_x = 0;
  total_sum_y = 0;
  curr_index = 0;
  x_pos = 0;
  y_pos = 0;
  old_x_pos = 0;
  old_y_pos = 0;
  x_speed = pos 0;
  y_speed = pos 0;
  old_x_speed = pos 0;
  old_y_speed = pos 0;
  x_acceleration = pos 0;
  y_acceleration = pos 0;
}

-- `total - old + new` of `unsigned int`
abbrev pub exchange : ℕ → ℕ → ℕ → ℕ
exchange total old new = ((total + (2 ^ 32 - old)) % 2 ^ 32 + new) % 2 ^ 32

-- `(int)n` of an `unsigned int`
abbrev pub to_signed : ℕ → ℤ
to_signed n = if ltb n (2 ^ 31) then pos n else negsuc (2 ^ 32 - 1 - n)

unfoldable pub compute_pos : ℕ → ℕ → Plot → Plot
compute_pos x_cur y_cur p =
    let total_x = exchange p.total_sum_x (get_or p.x_buffer p.curr_index 0) x_cur in
    let total_y = exchange p.total_sum_y (get_or p.y_buffer p.curr_index 0) y_cur in
    record p {
      total_sum_x = total_x;
      x_buffer = set p.x_buffer p.curr_index x_cur;
      total_sum_y = total_y;
      y_buffer = set p.y_buffer p.curr_index y_cur;
      x_pos = total_x / 2 ^ 4;
      y_pos = total_y / 2 ^ 4;
      curr_index = (p.curr_index + 1) % 2 ^ 32 % 16;
    }

unfoldable pub compute_speed : Plot → Plot
compute_speed p = record p {
  x_speed = (to_signed p.x_pos -ℤ to_signed p.old_x_pos) *ℤ inv_tick_time;
  y_speed = (to_signed p.y_pos -ℤ to_signed p.old_y_pos) *ℤ inv_tick_time;
  old_x_pos = p.x_pos;
  old_y_pos = p.y_pos;
}

unfoldable pub compute_acceleration : Plot → Plot
compute_acceleration p = record p {
  x_acceleration = (p.x_speed -ℤ p.old_x_speed) *ℤ inv_tick_time;
  y_acceleration = (p.y_speed -ℤ p.old_y_speed) *ℤ inv_tick_time;
  old_x_speed = p.x_speed;
  old_y_speed = p.y_speed;
}

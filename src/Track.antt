-- ===== src/Track.antt =====
-- Ball tracking: the globals and `compute_pos` of sequential/BallController.c and
-- parallel/BallController.c. The two versions of `compute_pos` differ in `old_time` alone; what they
-- share is `accepts`, the test, and `store`, the moving average over 16 samples.
-- An `int` is an integer; Track/Valid is about the bounds.
pub mod Valid
mod Window
pub mod Mean
pub mod Warmup
pub mod Gate
use spi_nnaker.Prelude.{
  ℕ, ◌+◌, ◌%◌, Bool, true, false, not, ◌&&◌, ◌||◌, List, if◌then◌else◌, ◌==◌, get_or, set,
  replicate,
}
use spi_nnaker.Prelude.Int.{ℤ, pos, ◌+ℤ◌, ◌-ℤ◌, shr_ℤ}
use spi_nnaker.Platform.{Platform}
use spi_nnaker.Calc

pub record Tracker : Type 0 where
  pub x_buffer : List ℤ
  pub y_buffer : List ℤ
  pub total_sum_x : ℤ
  pub total_sum_y : ℤ
  pub curr_index : ℕ
  pub x_pos : ℤ
  pub y_pos : ℤ
  pub pos_computed : Bool

-- The initial values of the globals.
abbrev pub start : Tracker
start = record {
  x_buffer = replicate 16 (pos 0);
  y_buffer = replicate 16 (pos 0);
  total_sum_x = pos 0;
  total_sum_y = pos 0;
  curr_index = 0;
  x_pos = pos 0;
  y_pos = pos 0;
  pos_computed = false;
}

-- The statements under the test.
unfoldable pub store : ℤ → ℤ → Tracker → Tracker
store x_cur y_cur t =
    let total_x = t.total_sum_x -ℤ get_or t.x_buffer t.curr_index (pos 0) +ℤ x_cur in
    let total_y = t.total_sum_y -ℤ get_or t.y_buffer t.curr_index (pos 0) +ℤ y_cur in
    record {
      x_buffer = set t.x_buffer t.curr_index x_cur;
      y_buffer = set t.y_buffer t.curr_index y_cur;
      total_sum_x = total_x;
      total_sum_y = total_y;
      curr_index = (t.curr_index + 1) % 16;
      x_pos = shr_ℤ total_x 4;
      y_pos = shr_ℤ total_y 4;
      pos_computed = if not t.pos_computed && t.curr_index == 15 then true else t.pos_computed;
    }

module _ (P : Platform) where
  open P use {less, of_int}

  -- `pos_computed == 0 || norm(x_pos - x_cur, y_pos - y_cur) < 100`
  unfoldable pub accepts : ℤ → ℤ → Tracker → Bool
  accepts x_cur y_cur t =
      not t.pos_computed
      || less (Calc.norm P (t.x_pos -ℤ x_cur) (t.y_pos -ℤ y_cur)) (of_int (pos 100))

  -- `compute_pos` of the parallel version.
  unfoldable pub compute_pos : ℤ → ℤ → Tracker → Tracker
  compute_pos x_cur y_cur t = if accepts x_cur y_cur t then store x_cur y_cur t else t

  -- `compute_pos` of the sequential version, which also keeps the time of the last sample.
  pub compute_pos_at : ℤ → ℤ → ℕ → Tracker × ℤ → Tracker × ℤ
  compute_pos_at x_cur y_cur sim_time (t, old_time) =
      if accepts x_cur y_cur t then (store x_cur y_cur t, pos sim_time) else (t, old_time)

-- ===== src/Parallel/Motion.antt =====
-- The ball as the parallel version follows it, one assignment after the other: `average_params`,
-- `compute_speed`, `normalizeBallParams` and the reward of parallel/network.c.
-- (parallel/network.c 67-144)
pub mod Agrees
use spi_nnaker.Prelude.{ℕ, ◌+◌, ◌%◌, if◌then◌else◌, ◌==◌, get_or, set}
use spi_nnaker.Prelude.Int.{ℤ}
use spi_nnaker.Platform.{Platform}
use spi_nnaker.Calc
use spi_nnaker.Network.{Ball, inv_delta_time, inv_speed_averager_step, a_x, b_x, a_y, b_y}
use spi_nnaker.Network.Constants.{speed_averager_step, speed_resize_factor}

module _ (P : Platform) where
  open P use {Num, ◌⊕◌, ◌⊖◌, ◌⊗◌, ◌⊘◌, neg, single, less, decimal, of_int}

  infixl 65 ◌⊕◌ ◌⊖◌
  infixl 70 ◌⊗◌ ◌⊘◌
  unfoldable pub average_params : Ball Num → Ball Num
  average_params b =
      let n_pos = Calc.v_norm P b.position in
      let n_sp = Calc.v_norm P b.speed in
      let old_pos = get_or b.pos_buffer b.avg_index (decimal 0 0) in
      let b1 : Ball Num = record b {
        total_sum_pos = single (single (b.total_sum_pos ⊖ old_pos) ⊕ n_pos);
      } in
      let old_sp = get_or b1.speed_buffer b1.avg_index (decimal 0 0) in
      let b2 : Ball Num = record b1 {
        total_sum_speed = single (single (b1.total_sum_speed ⊖ old_sp) ⊕ n_sp);
      } in
      let b3 : Ball Num = record b2 { pos_buffer = set b2.pos_buffer b2.avg_index n_pos } in
      let b4 : Ball Num = record b3 { speed_buffer = set b3.speed_buffer b3.avg_index n_sp } in
      let b5 : Ball Num = record b4 { avg_pos = single (b4.total_sum_pos ⊘ decimal 4 0) } in
      let b6 : Ball Num = record b5 { avg_speed = single (b5.total_sum_speed ⊘ decimal 4 0) } in
      record b6 { avg_index = (b6.avg_index + 1) % 4 }

  -- The body of the `if` of `compute_speed`.
  unfoldable pub new_speed : Ball Num → Ball Num
  new_speed b =
      let by_step = λ (now before : Num). single (
        single (now ⊖ before)
        ⊗ inv_delta_time P
        ⊗ inv_speed_averager_step P
        ⊗ speed_resize_factor P) in
      let b1 : Ball Num = record b {
        speed = record (b.speed) { x = by_step b.position.x b.old_pos.x };
      } in
      let b2 : Ball Num = record b1 {
        speed = record (b1.speed) { y = by_step b1.position.y b1.old_pos.y };
      } in
      let b3 : Ball Num = record b2 { sp_x_term = Calc.f_abs P b2.speed.x } in
      let b4 : Ball Num = record b3 { sp_y_term = Calc.f_abs P b3.speed.y } in
      let b5 : Ball Num = record b4 { old_pos = record (b4.old_pos) { x = b4.position.x } } in
      record b5 { old_pos = record (b5.old_pos) { y = b5.position.y } }

  unfoldable pub compute_speed : ℕ → Ball Num → Ball Num
  unfolding new_speed
  compute_speed sim_time b = if sim_time % speed_averager_step == 0 then new_speed b else b

  -- The `if` of `normalizeBallParams`.
  unfoldable pub shrink : Ball Num → Ball Num
  shrink b =
      let n_pos = Calc.v_norm P b.position in
      let b1 : Ball Num = record b {
        position = record (b.position) { x = single (b.position.x ⊘ n_pos) };
      } in
      let b2 : Ball Num = record b1 {
        position = record (b1.position) { y = single (b1.position.y ⊘ n_pos) };
      } in
      if less (decimal 1 0) n_pos then b2 else b

  unfoldable pub normalize_ball_params : ℤ → ℤ → ℕ → Ball Num → Ball Num
  unfolding shrink compute_speed average_params
  normalize_ball_params x_pos y_pos sim_time b =
      let now_x = single (a_x P ⊗ of_int x_pos ⊕ b_x P) in
      let b1 : Ball Num = record b { position = record (b.position) { x = now_x } } in
      let now_y = single (a_y P ⊗ of_int y_pos ⊕ b_y P) in
      let b2 : Ball Num = record b1 { position = record (b1.position) { y = now_y } } in
      average_params (compute_speed sim_time (shrink b2))

  unfoldable pub r_pos_x : Ball Num → Num
  r_pos_x b = single (decimal 1 0 ⊖ Calc.f_abs P b.position.x)

  unfoldable pub r_pos_y : Ball Num → Num
  r_pos_y b = single (decimal 1 0 ⊖ Calc.f_abs P b.position.y)

  -- `R_x` and `R_y`
  unfoldable pub reward_x : Ball Num → Num
  unfolding r_pos_x
  reward_x b =
      let r = single (r_pos_x b ⊖ b.sp_x_term) in Calc.range P r (neg (decimal 1 0)) (decimal 1 0)

  unfoldable pub reward_y : Ball Num → Num
  unfolding r_pos_y
  reward_y b =
      let r = single (r_pos_y b ⊖ b.sp_y_term) in Calc.range P r (neg (decimal 1 0)) (decimal 1 0)

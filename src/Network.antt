-- ===== src/Network.antt =====
-- The part of network.c that the sequential and the parallel version share: the ball's position and
-- speed, the reward, the activation of a population and the noise, as the sequential version has them.
-- What the parallel version does with its own globals stands in Parallel/Motion and Parallel/Activity.
-- (sequential/network.c 310-387, 395-432, 507-525, 694-724)
pub mod Constants
pub mod Rings
use spi_nnaker.Prelude.{ℕ, ◌+◌, ◌/◌, ◌%◌, bit_and, List, if◌then◌else◌, ◌==◌, get_or, set}
use spi_nnaker.Prelude.Int.{ℤ, pos, sub_ℕ}
use spi_nnaker.Platform.{Platform}
use spi_nnaker.Calc
use spi_nnaker.Calc.{Vector2d}
use Constants.{
  ball_pos_y_min, ball_pos_y_center, ball_pos_x_max, ball_pos_x_center, speed_averager_step,
  speed_resize_factor, beta, alpha, k, sigma_0,
}

-- The globals about the ball.
pub record Ball (N : Type 0) : Type 0 where
  pub position : Vector2d N
  pub speed : Vector2d N
  pub old_pos : Vector2d N
  pub sp_x_term : N
  pub sp_y_term : N
  pub pos_buffer : List N
  pub speed_buffer : List N
  pub total_sum_pos : N
  pub total_sum_speed : N
  pub avg_pos : N
  pub avg_speed : N
  pub avg_index : ℕ

-- The globals of the critic.
pub record Critic (N : Type 0) : Type 0 where
  pub old_v_x : N
  pub old_v_y : N
  pub error_x : N
  pub error_y : N

module _ (P : Platform) where
  open P use {Num, ◌⊕◌, ◌⊖◌, ◌⊗◌, ◌⊘◌, neg, single, less, same, decimal, of_int, sqrt, cos, sin}
  open P use {rand, rand_max}

  infixl 65 ◌⊕◌ ◌⊖◌
  infixl 70 ◌⊗◌ ◌⊘◌
  -- `1.0 / DELTA_TIME`
  abbrev pub inv_delta_time : Num
  inv_delta_time = decimal 1 0 ⊘ decimal 1 1

  -- `1.0 / SPEED_AVERAGER_STEP`
  abbrev pub inv_speed_averager_step : Num
  inv_speed_averager_step = decimal 1 0 ⊘ of_int (pos speed_averager_step)

  -- `-1.0/(BALL_POS_X_MAX - BALL_POS_X_CENTER)`
  abbrev pub a_x : Num
  a_x = neg (decimal 1 0) ⊘ of_int (sub_ℕ ball_pos_x_max ball_pos_x_center)

  abbrev pub b_x : Num
  b_x = neg a_x ⊗ of_int (pos ball_pos_x_center)

  -- `-1.0/(BALL_POS_Y_MIN - BALL_POS_Y_CENTER)`, whose divisor is negative.
  abbrev pub a_y : Num
  a_y = neg (decimal 1 0) ⊘ of_int (sub_ℕ ball_pos_y_min ball_pos_y_center)

  abbrev pub b_y : Num
  b_y = neg a_y ⊗ of_int (pos ball_pos_y_center)

  -- `range(v, -1.0, 1.0)`
  abbrev pub clamp : Num → Num
  clamp v = Calc.range P v (neg (decimal 1 0)) (decimal 1 0)

  unfoldable pub average_params : Ball Num → Ball Num
  average_params b =
      let n_pos = Calc.v_norm P b.position in
      let n_sp = Calc.v_norm P b.speed in
      let old_pos = get_or b.pos_buffer b.avg_index (decimal 0 0) in
      let old_sp = get_or b.speed_buffer b.avg_index (decimal 0 0) in
      let sum_pos = single (single (b.total_sum_pos ⊖ old_pos) ⊕ n_pos) in
      let sum_speed = single (single (b.total_sum_speed ⊖ old_sp) ⊕ n_sp) in
      record b {
        total_sum_pos = sum_pos;
        total_sum_speed = sum_speed;
        pos_buffer = set b.pos_buffer b.avg_index n_pos;
        speed_buffer = set b.speed_buffer b.avg_index n_sp;
        avg_pos = single (sum_pos ⊘ decimal 4 0);
        avg_speed = single (sum_speed ⊘ decimal 4 0);
        avg_index = (b.avg_index + 1) % 4;
      }

  -- The speed along one axis.
  abbrev pub axis_speed : Num → Num → Num
  axis_speed now before =
      single
        (single (now ⊖ before) ⊗ inv_delta_time ⊗ inv_speed_averager_step ⊗ speed_resize_factor P)

  unfoldable pub compute_speed : ℕ → Ball Num → Ball Num
  compute_speed sim_time b =
      let speed_x = axis_speed b.position.x b.old_pos.x in
      let speed_y = axis_speed b.position.y b.old_pos.y in
      if sim_time % speed_averager_step == 0
      then record b {
        speed = record { x = speed_x; y = speed_y };
        sp_x_term = Calc.f_abs P speed_x;
        sp_y_term = Calc.f_abs P speed_y;
        old_pos = b.position;
      }
      else b

  -- A position outside the unit disk is moved onto its border.
  unfoldable pub onto_disk : Vector2d Num → Vector2d Num
  onto_disk v =
      let n_pos = Calc.v_norm P v in
      if less (decimal 1 0) n_pos
      then record { x = single (v.x ⊘ n_pos); y = single (v.y ⊘ n_pos) }
      else v

  unfoldable pub normalize_ball_params : ℤ → ℤ → ℕ → Ball Num → Ball Num
  unfolding onto_disk compute_speed average_params
  normalize_ball_params x_pos y_pos sim_time b =
      let raw : Vector2d Num = record {
        x = single (a_x ⊗ of_int x_pos ⊕ b_x);
        y = single (a_y ⊗ of_int y_pos ⊕ b_y);
      } in
      average_params (compute_speed sim_time (record b { position = onto_disk raw }))

  unfoldable pub r_pos_x : Ball Num → Num
  r_pos_x b = single (decimal 1 0 ⊖ Calc.f_abs P b.position.x)

  unfoldable pub r_pos_y : Ball Num → Num
  r_pos_y b = single (decimal 1 0 ⊖ Calc.f_abs P b.position.y)

  -- `R_x` and `R_y`
  unfoldable pub reward_x : Ball Num → Num
  unfolding r_pos_x
  reward_x b = clamp (single (r_pos_x b ⊖ b.sp_x_term))

  unfoldable pub reward_y : Ball Num → Num
  unfolding r_pos_y
  reward_y b = clamp (single (r_pos_y b ⊖ b.sp_y_term))

  -- `IF`, the activation of a population; the upper threshold is 1.
  unfoldable pub activation : Num → Num
  activation input =
      let output =
        if less input (alpha P) then decimal 0 0 else single (beta P ⊗ (input ⊖ alpha P)) in
      if less (decimal 1 0) output then decimal 1 0 else output

  -- `sigma_x` and `sigma_y`, of `old_V_x` and `old_V_y`.
  unfoldable pub sigma : Num → Num
  sigma old_v = single (
      sigma_0 P
      ⊗ Calc.min P (single (k P)) (Calc.max P (decimal 0 0) (single (decimal 1 0 ⊖ old_v))))

  -- `(float)rand() / RAND_MAX`
  abbrev pub uniform : ℕ → Num
  uniform r = single (single (of_int (pos r)) ⊘ single (of_int (pos rand_max)))

  -- The noise and the next state of the generator. `U1` is drawn and not used: `log` is replaced by
  -- a constant.
  unfoldable pub noise : ℕ → Vector2d Num × ℕ
  noise seed =
      let (_, seed1) = rand seed in
      let (r2, seed2) = rand seed1 in
      let u2 = uniform r2 in
      let radius = single (sqrt (neg (decimal 2 0) ⊗ neg (decimal 693147 6))) in
      let theta = single (decimal 2 0 ⊗ decimal 3141527 6 ⊗ u2) in
      let r =
        Calc.v_mul P (single (decimal 5 1))
          (record { x = single (radius ⊗ cos theta); y = single (radius ⊗ sin theta) }) in
      (record { x = clamp r.x; y = clamp r.y }, seed2)

  -- A weight before any learning: `(((float)rand() / RAND_MAX) / 5.0) - 0.1`.
  unfoldable pub first_weight : ℕ → Num × ℕ
  first_weight seed =
      let (r, seed') = rand seed in (single (uniform r ⊘ decimal 5 0 ⊖ decimal 1 1), seed')

  -- The population's centre that `init_MFM` computes for a core of a chip.
  unfoldable pub center_of : ℕ → ℕ → Vector2d Num
  center_of chip_id core_id =
      let chip_x = bit_and chip_id 0xff in
      let chip_y = chip_id / 256 in
      let core_x = bit_and core_id 3 in
      let core_y = core_id / 4 in
      let quarter = single (single (of_int (pos core_x)) ⊘ decimal 4 0) in
      let p1 = if same quarter (decimal 0 0) then single (decimal 9 2) else quarter in
      let p2 = single (single (of_int (pos core_y)) ⊘ decimal 4 0) in
      let half_pi = decimal 3141527 6 ⊘ decimal 2 0 in
      let r = single (decimal 115 2 ⊗ sqrt (p1 ⊖ decimal 5 2)) in
      let theta =
        single
          (half_pi ⊗ p2 ⊕ half_pi ⊗ (of_int (pos chip_x) ⊕ decimal 2 0 ⊗ of_int (pos chip_y))) in
      record { x = single (r ⊗ cos theta); y = single (r ⊗ sin theta) }

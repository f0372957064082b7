-- ===== src/Network/Constants.antt =====
-- The constants of network.h that both versions have: the ball's plate, the critic, the populations
-- and the actor.
use spi_nnaker.Prelude.{ℕ, ◌+◌, ◌/◌}
use spi_nnaker.Platform.{Platform}

abbrev pub ball_pos_y_max : ℕ
ball_pos_y_max = 115

abbrev pub ball_pos_y_min : ℕ
ball_pos_y_min = 5

-- `(int)((BALL_POS_Y_MAX + BALL_POS_Y_MIN) / 2)`
abbrev pub ball_pos_y_center : ℕ
ball_pos_y_center = (ball_pos_y_max + ball_pos_y_min) / 2

abbrev pub ball_pos_x_max : ℕ
ball_pos_x_max = 125

abbrev pub ball_pos_x_min : ℕ
ball_pos_x_min = 20

abbrev pub ball_pos_x_center : ℕ
ball_pos_x_center = (ball_pos_x_max + ball_pos_x_min) / 2

abbrev pub speed_averager_step : ℕ
speed_averager_step = 5

abbrev pub reset_step : ℕ
reset_step = 200

module _ (P : Platform) where
  open P use {Num, single, decimal}

  -- `(float)(0.1)`
  abbrev pub speed_resize_factor : Num
  speed_resize_factor = single (decimal 1 1)

  abbrev pub gamma : Num
  gamma = decimal 1 2

  abbrev pub lambda : Num
  lambda = decimal 1 0

  abbrev pub learning_rate_v : Num
  learning_rate_v = decimal 5 1

  abbrev pub tau_m : Num
  tau_m = decimal 5 1

  abbrev pub beta : Num
  beta = decimal 5 0

  abbrev pub alpha : Num
  alpha = decimal 8 1

  abbrev pub learning_rate_a : Num
  learning_rate_a = decimal 5 1

  abbrev pub k : Num
  k = decimal 5 1

  abbrev pub sigma_0 : Num
  sigma_0 = decimal 1 1

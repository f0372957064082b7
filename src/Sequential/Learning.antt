-- ===== src/Sequential/Learning.antt =====
-- The mean-field populations, the critic and the actor of sequential/network.c. A loop over the
-- populations is `for_each` over its round.
pub mod Commands
pub mod Sizes
use spi_nnaker.Prelude.{
  ℕ, zero, suc, ◌+◌, ◌%◌, ◌&&◌, List, [], if◌then◌else◌, ltb, ◌==◌, get_or, set,
}
use spi_nnaker.Prelude.Loop.{for_each}
use spi_nnaker.Prelude.Int.{ℤ, pos}
use spi_nnaker.Platform.{Platform}
use spi_nnaker.Calc
use spi_nnaker.Calc.{vector}
use spi_nnaker.Device.{Effect, send_norm_motor_command}
use spi_nnaker.Network
use spi_nnaker.Network.Constants.{
  gamma, lambda, learning_rate_v, learning_rate_a, tau_m, reset_step,
}
use spi_nnaker.Sequential.Globals.{n_mfm, State, unbalanced, balanced, Globals}

module _ (P : Platform) where
  open P use {Num, ◌⊕◌, ◌⊖◌, ◌⊗◌, ◌⊘◌, neg, single, less, decimal, of_int, to_int, srand}

  infixl 65 ◌⊕◌ ◌⊖◌
  infixl 70 ◌⊗◌ ◌⊘◌
  abbrev at : List Num → ℕ → Num
  at xs i = get_or xs i (decimal 0 0)

  -- `F[i] += dv` along one axis, from the ball's distance to the population's centre.
  unfoldable pub relax : Num → Num → Num
  relax f dist =
      let i_ext = single ((decimal 2 0 ⊖ dist) ⊘ decimal 2 0) in
      let dv = single (single (neg f ⊕ Network.activation P i_ext) ⊗ tau_m P) in single (f ⊕ dv)

  -- One round of the loop of `mfm_`.
  unfoldable pub mfm_round : ℕ → Globals Num → Globals Num
  unfolding relax
  mfm_round index g =
      let distance =
        Calc.v_sub P g.ball.position (get_or g.center index (vector (decimal 0 0) (decimal 0 0))) in
      record g {
        f_x = set g.f_x index (relax (at g.f_x index) (Calc.f_abs P distance.x));
        f_y = set g.f_y index (relax (at g.f_y index) (Calc.f_abs P distance.y));
      }

  unfoldable pub mfm : Globals Num → Globals Num
  unfolding for_each mfm_round
  mfm g = for_each n_mfm 0 mfm_round g

  -- The sum of `w[i] * phi(i)` from element `i` on, added to `v`.
  weighted_sum : ℕ → ℕ → List Num → List Num → Num → Num
  weighted_sum zero i w phi v = v
  weighted_sum (suc left) i w phi v =
      weighted_sum left (i + 1) w phi (single (v ⊕ single (at w i ⊗ at phi i)))

  -- `V_x` and `V_y`, and the outputs of the actor before the noise.
  unfoldable pub mean_output : List Num → List Num → Num
  unfolding weighted_sum
  mean_output w phi = single (weighted_sum n_mfm 0 w phi (decimal 0 0) ⊘ of_int (pos n_mfm))

  -- The error of one axis, from its reward, value and old value.
  unfoldable pub temporal_error : Num → Num → Num → Num
  temporal_error r curr_v old_v = single (r ⊕ gamma P ⊗ curr_v ⊖ old_v)

  unfoldable pub update_error : ℤ → ℤ → ℕ → Globals Num → Globals Num
  unfolding temporal_error
  update_error x_pos y_pos sim_time g =
      let ball' = Network.normalize_ball_params P x_pos y_pos sim_time g.ball in
      let v_x = single (Network.inv_delta_time P ⊗ mean_output g.w_v_x_array g.f_x) in
      let v_y = single (Network.inv_delta_time P ⊗ mean_output g.w_v_y_array g.f_y) in
      record g {
        ball = ball';
        critic = record {
          error_x = temporal_error (Network.reward_x P ball') v_x g.critic.old_v_x;
          old_v_x = v_x;
          error_y = temporal_error (Network.reward_y P ball') v_y g.critic.old_v_y;
          old_v_y = v_y;
        };
      }

  -- The eligibility trace and the critic's weight of one population, along one axis.
  unfoldable pub next_trace : Num → Num → Num
  next_trace e phi = single (lambda P ⊗ gamma P ⊗ e ⊕ phi)

  unfoldable pub next_value_weight : Num → Num → Num → Num
  next_value_weight w error e = single (w ⊕ learning_rate_v P ⊗ error ⊗ e)

  -- One round of the loop of `update_V`.
  unfoldable pub value_round : ℕ → Globals Num → Globals Num
  unfolding next_trace next_value_weight
  value_round i g =
      let e_x = next_trace (at g.e_x_array i) (at g.f_x i) in
      let e_y = next_trace (at g.e_y_array i) (at g.f_y i) in
      record g {
        e_x_array = set g.e_x_array i e_x;
        w_v_x_array =
            set g.w_v_x_array i (next_value_weight (at g.w_v_x_array i) g.critic.error_x e_x);
        e_y_array = set g.e_y_array i e_y;
        w_v_y_array =
            set g.w_v_y_array i (next_value_weight (at g.w_v_y_array i) g.critic.error_y e_y);
      }

  unfoldable pub update_v : Globals Num → Globals Num
  unfolding for_each value_round
  update_v g = for_each n_mfm 0 value_round g

  -- The actor's outputs with the noise, `theta` and `psi` of `move` before `range`.
  unfoldable pub outputs : Globals Num → Num × Num
  unfolding mean_output
  outputs g = (
    single
        (mean_output g.w_a_theta_array g.f_x ⊕ single (Network.sigma P g.critic.old_v_x ⊗ g.n.x)),
    single (mean_output g.w_a_psi_array g.f_y ⊕ single (Network.sigma P g.critic.old_v_y ⊗ g.n.y)),
  )

  -- What `move` decides and sends.
  unfoldable pub move : ℕ → Globals Num → State × List Effect
  move sim_time g =
      let (theta, psi) = outputs g in
      if ltb 300 sim_time
        && less g.ball.avg_pos (decimal 15 2)
        && less g.ball.avg_speed (decimal 3 2)
      then (balanced, send_norm_motor_command P (decimal 0 0) (decimal 0 0))
      else if sim_time % reset_step == 0
      then (
        unbalanced,
        if less (decimal 6 1) (Calc.v_norm P g.ball.position)
            then send_norm_motor_command P g.ball.position.x g.ball.position.y
            else [],
      )
      else (unbalanced, send_norm_motor_command P (Network.clamp P theta) (Network.clamp P psi))

  -- The actor's weight of one population, along one axis.
  unfoldable pub next_action_weight : Num → Num → Num → Num → Num
  next_action_weight w error noise phi = single (w ⊖ learning_rate_a P ⊗ error ⊗ noise ⊗ phi)

  -- One round of the loop of `update_A`.
  unfoldable pub action_round : ℕ → Globals Num → Globals Num
  unfolding next_action_weight
  action_round i g = record g {
    w_a_theta_array =
        set g.w_a_theta_array i
          (next_action_weight (at g.w_a_theta_array i) g.critic.error_x g.n.x (at g.f_x i));
    w_a_psi_array =
        set g.w_a_psi_array i
          (next_action_weight (at g.w_a_psi_array i) g.critic.error_y g.n.y (at g.f_y i));
  }

  unfoldable pub update_a : Globals Num → Globals Num
  unfolding for_each action_round
  update_a g =
      let (n', seed') = Network.noise P g.seed in
      for_each n_mfm 0 action_round (record g { n = n'; seed = seed' })

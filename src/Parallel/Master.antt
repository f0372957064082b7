-- ===== src/Parallel/Master.antt =====
-- The master of the parallel version: `rec_upd`, `V_x`, `V_y`, `updateError`, `move` and `send_err` of
-- parallel/network.c, `update` and `eventMaster` of parallel/BallController.c.
pub mod Stream
pub mod Fault
pub mod Commands
pub mod Stops
use spi_nnaker.Prelude.{
  ℕ, ◌+◌, ◌%◌, Bool, true, false, not, ◌&&◌, ◌||◌, Option, none, some, List, [], ◌∷◌, ◌++◌,
  if◌then◌else◌, ◌==◌, ltb, set,
}
use spi_nnaker.Prelude.Int.{ℤ, pos, to_uint}
use spi_nnaker.Platform.{Platform}
use spi_nnaker.Track.{Tracker, compute_pos}
use spi_nnaker.Network
use spi_nnaker.Network.Constants.{gamma}
use spi_nnaker.Calc.{Vector2d}
use spi_nnaker.Device.{Effect, Event, send_mc, send_norm_motor_command}
use spi_nnaker.Sequential.Globals.{State, unbalanced, saved}
use spi_nnaker.Sequential.Controller.{is_unbalanced, is_balanced, event_x, event_y, event_polarity}
use spi_nnaker.Parallel.Globals.{n_mfm, Globals}
use spi_nnaker.Parallel.Messages.{ErrorFields, pack_error, unpack_update, is_update}
use spi_nnaker.Parallel.Motion
use spi_nnaker.Parallel.Activity
use spi_nnaker.Parallel.Node.{is_negative, scaled, received}

abbrev pub save_step : ℕ
save_step = 2000

-- The globals of parallel/BallController.c that the master uses.
pub record Master (N : Type 0) : Type 0 where
  pub tracker : Tracker
  pub state : State
  pub sim_count : ℕ
  pub network : Globals N

abbrev pub is_saved : State → Bool
is_saved State.saved = true
is_saved _ = false

module _ (P : Platform) where
  open P use {Num, ◌⊕◌, ◌⊖◌, ◌⊗◌, ◌⊘◌, single, decimal, of_int}

  infixl 65 ◌⊕◌ ◌⊖◌
  infixl 70 ◌⊗◌ ◌⊘◌
  -- The arrays have 59 elements and the index field 6 bits. A write past the end of an array, which C
  -- leaves undefined, is `none`. The write to `V_y_array` is a comment in the source.
  unfoldable pub rec_upd : ℕ → ℕ → Globals Num → Option (Globals Num)
  rec_upd key payload g =
      let u = unpack_update (record { key = key; payload = payload }) in
      let v_x = received P u.negative_v_x u.size_v_x (decimal 1000 0) in
      let theta = received P u.negative_theta u.size_theta (decimal 10000 0) in
      let psi = received P u.negative_psi u.size_psi (decimal 10000 0) in
      if ltb u.index n_mfm
      then some (record g {
        v_x_array = set g.v_x_array u.index v_x;
        a_theta_array = set g.a_theta_array u.index theta;
        a_psi_array = set g.a_psi_array u.index psi;
      })
      else none

  -- A loop that adds up an array.
  sum_from : Num → List Num → Num
  sum_from v [] = v
  sum_from v (x ∷ xs) = sum_from (single (v ⊕ x)) xs

  unfoldable pub v_x : Globals Num → Num
  unfolding sum_from
  v_x g = single (sum_from (decimal 0 0) g.v_x_array ⊘ of_int (pos n_mfm))

  -- The loop of `V_y` is a comment in the source.
  unfoldable pub v_y : Num
  v_y = single (decimal 0 0 ⊘ of_int (pos n_mfm))

  unfoldable pub update_error : ℤ → ℤ → ℕ → Globals Num → Globals Num
  unfolding v_x v_y
  update_error x_pos y_pos sim_time g =
      let ball' = Motion.normalize_ball_params P x_pos y_pos sim_time g.ball in
      let curr_x = single (Network.inv_delta_time P ⊗ v_x g) in
      let curr_y = single (Network.inv_delta_time P ⊗ v_y) in
      let raw_x = single (Motion.reward_x P ball' ⊕ gamma P ⊗ curr_x ⊖ g.critic.old_v_x) in
      let raw_y = single (Motion.reward_y P ball' ⊕ gamma P ⊗ curr_y ⊖ g.critic.old_v_y) in
      record g {
        ball = ball';
        critic = record {
          error_x = Network.clamp P raw_x;
          old_v_x = curr_x;
          error_y = Network.clamp P raw_y;
          old_v_y = curr_y;
        };
      }

  -- The means of the actors' outputs with the noise, `theta` and `psi` of `move` before `range`.
  unfoldable pub outputs : Vector2d Num → Globals Num → Num × Num
  unfolding sum_from
  outputs noise g =
      let theta = single (sum_from (decimal 0 0) g.a_theta_array ⊘ of_int (pos n_mfm)) in
      let psi = single (sum_from (decimal 0 0) g.a_psi_array ⊘ of_int (pos n_mfm)) in
      (
        single (theta ⊕ single (Activity.sigma_x P g.critic ⊗ noise.x)),
        single (psi ⊕ single (Activity.sigma_y P g.critic ⊗ noise.y)),
      )

  -- The tests on `avg_pos` and on the time are comments in the source.
  unfoldable pub move : Globals Num → Globals Num × State × List Effect
  move g =
      let (n', seed') = Activity.noise P g.seed in
      let (theta, psi) = outputs n' g in
      (
        record g { n = n'; seed = seed' },
        unbalanced,
        send_norm_motor_command P (Network.clamp P theta) (Network.clamp P psi),
      )

  -- The fields of the error that `send_err` sends.
  unfoldable pub error_fields : ℕ → ℕ → Globals Num → ErrorFields
  error_fields x_pos y_pos g = record {
    x_pos = x_pos;
    y_pos = y_pos;
    negative_x = is_negative P g.critic.error_x;
    negative_y = is_negative P g.critic.error_y;
    size_x = to_uint (scaled P g.critic.error_x (decimal 10000 0));
    size_y = to_uint (scaled P g.critic.error_y (decimal 10000 0));
    count = (g.counter + 1) % 50;
  }

  unfoldable pub send_err : ℕ → ℕ → Globals Num → Globals Num × List Effect
  unfolding error_fields
  send_err x_pos y_pos g =
      let p = pack_error (error_fields x_pos y_pos g) in
      (record g { counter = (g.counter + 1) % 50 }, send_mc p.key p.payload ∷ [])

  -- The first half of `update`: the networks, the motors and the message to the nodes.
  unfoldable pub control : ℕ → Master Num → Master Num × List Effect
  unfolding update_error move send_err
  control sim_time m =
      let g1 = update_error m.tracker.x_pos m.tracker.y_pos sim_time m.network in
      let (g2, state', moved) = move g1 in
      let (g3, sent) = send_err (to_uint m.tracker.x_pos) (to_uint m.tracker.y_pos) g2 in
      (record m { state = state'; network = g3 }, moved ++ sent)

  unfoldable pub update : ℕ → Master Num → Master Num × List Effect
  unfolding control
  update sim_time m =
      let (m1, sent) = if is_unbalanced m.state then control sim_time m else (m, []) in
      if is_balanced m1.state || (not (is_saved m1.state) && sim_time % save_step == 0)
      then (record m1 { state = saved }, sent ++ (Effect.callback_off Event.timer_tick ∷ []))
      else (m1, sent)

  abbrev pub keep : Master Num → Option (Globals Num) → Option (Master Num)
  keep m none = none
  keep m (some g) = some (record m { network = g })

  -- `sim_time` is what `spin1_get_simulation_time()` returns.
  unfoldable pub event_master : ℕ → ℕ → ℕ → Master Num → Option (Master Num)
  unfolding rec_upd
  event_master sim_time key payload m =
      if is_update key
      then keep m (rec_upd key payload m.network)
      else if event_polarity key == 1 && not (sim_time == 0)
      then some
          (record m { tracker = compute_pos P (pos (event_x key)) (pos (event_y key)) m.tracker })
      else some m

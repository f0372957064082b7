-- ===== src/Agreement/Reward.antt =====
-- The temporal error of the two versions side by side.
-- (sequential/network.c 563-585; parallel/network.c 465-486)
use spi_nnaker.Prelude.{ℕ, ◌≡◌, ap}
use spi_nnaker.Prelude.Int.{ℤ}
use spi_nnaker.Platform.{Platform}
use spi_nnaker.Network
use spi_nnaker.Sequential.Learning.{temporal_error}
use spi_nnaker.Parallel.Globals.{Globals}
use spi_nnaker.Parallel.Motion
use spi_nnaker.Parallel.Motion.Agrees.{normalize_ball_params-agrees}
use spi_nnaker.Parallel.Master

module _ (P : Platform) where
  open P use {Num}

  -- The master's `updateError`, which follows the ball by its own copy of the code, holds the ball of
  -- the sequential version afterwards; its errors are the sequential temporal errors of that ball's
  -- reward, of the value it has stored and of the value before, cut to the range from -1 to 1.
  pub update_error-agrees :
      (x y : ℤ) (t : ℕ) (g : Globals Num)
      → let h = Master.update_error P x y t g in
        let b = Network.normalize_ball_params P x y t g.ball in
        let error_x = temporal_error P (Network.reward_x P b) h.critic.old_v_x g.critic.old_v_x in
        let error_y = temporal_error P (Network.reward_y P b) h.critic.old_v_y g.critic.old_v_y in
        (h.ball ≡ b)
        × (h.critic.error_x ≡ Network.clamp P error_x)
        × (h.critic.error_y ≡ Network.clamp P error_y)
  unfolding Master.update_error Motion.reward_x Motion.reward_y Network.reward_x Network.reward_y
      temporal_error
  update_error-agrees x y t g =
      let agrees = normalize_ball_params-agrees P x y t g.ball in
      let value_x = P.single (P.◌⊗◌ (Network.inv_delta_time P) (Master.v_x P g)) in
      let value_y = P.single (P.◌⊗◌ (Network.inv_delta_time P) (Master.v_y P)) in
      (
        agrees,
        ap (λ b. Network.clamp P (temporal_error P (Motion.reward_x P b) value_x g.critic.old_v_x))
            agrees,
        ap (λ b. Network.clamp P (temporal_error P (Motion.reward_y P b) value_y g.critic.old_v_y))
            agrees,
      )

-- ===== src/Parallel/Start.antt =====
-- The start of the parallel version: `init_network` and `save_` of parallel/network.c, and `c_main` of
-- parallel/BallController.c.
use spi_nnaker.Prelude.{
  ℕ, ◌+◌, ◌%◌, ◌^◌, Bool, ◌&&◌, List, [], ◌∷◌, ◌++◌, if◌then◌else◌, ◌==◌, set, replicate,
}
use spi_nnaker.Prelude.Loop.{for_each}
use spi_nnaker.Prelude.Int.{pos}
use spi_nnaker.Platform.{Platform}
use spi_nnaker.Calc.{vector}
use spi_nnaker.Network
use spi_nnaker.Network.{Ball}
use spi_nnaker.Device.{Effect, Event, Handler, Line, banner, start_chip_devices}
use spi_nnaker.Device.Routes.{init_chip_io}
use spi_nnaker.Sequential.Controller.{tick_time}
use spi_nnaker.Parallel.Globals.{n_mfm, Globals}
use spi_nnaker.Parallel.Activity.{init_mfm}
use spi_nnaker.Parallel.Node.{node_index}

-- `chipID == 0 && coreID == 1`
unfoldable pub is_master : ℕ → ℕ → Bool
is_master chip_id core_id = chip_id == 0 && core_id == 1

module _ (P : Platform) where
  open P use {Num, ◌⊗◌, neg, single, decimal, of_int, to_int, srand}

  infixl 70 ◌⊗◌
  unfoldable pub fill_buffers : ℕ → Ball Num → Ball Num
  fill_buffers i b = record b {
    pos_buffer = set b.pos_buffer i (decimal 1 0);
    speed_buffer = set b.speed_buffer i (decimal 1 0);
  }

  unfoldable pub init_params : Globals Num → Globals Num
  unfolding fill_buffers for_each is_master
  init_params g =
      let (a, s1) = Network.first_weight P g.seed in
      let (b, s2) = Network.first_weight P s1 in
      let (c, s3) = Network.first_weight P s2 in
      let (d, s4) = Network.first_weight P s3 in
      record g {
        population = record (g.population) { w_v_x = a; w_v_y = b; w_a_theta = c; w_a_psi = d };
        seed = s4;
        ball = if is_master g.chip_id g.core_id then for_each 4 0 fill_buffers g.ball else g.ball;
      }

  unfoldable pub init_network : ℕ → ℕ → Globals Num → Globals Num
  unfolding init_params
  init_network chip_id core_id g =
      let zero_vector = vector (decimal 0 0) (decimal 0 0) in
      let left = vector (neg (decimal 1 0)) (decimal 0 0) in
      init_params (
        init_mfm P (record g {
          chip_id = chip_id;
          core_id = core_id;
          ball = record (g.ball) { position = left; old_pos = left; speed = zero_vector };
          n = zero_vector;
          seed = srand ((node_index chip_id core_id + 1) % 2 ^ 32);
        }))

  -- The last call of `io_printf` has two arguments too many, which it does not read.
  unfoldable pub save : Globals Num → List Effect
  save g =
      let shown = λ (w : Num). to_int (single (w ⊗ of_int (pos 1000))) in
      Effect.print (Line.node_open g.core_id g.chip_id)
      ∷ Effect.print (Line.node_w_v_x (shown g.population.w_v_x))
      ∷ Effect.print (Line.node_w_v_y (shown g.population.w_v_y))
      ∷ Effect.print (Line.node_w_a_theta (shown g.population.w_a_theta))
      ∷ Effect.print (Line.node_w_a_psi (shown g.population.w_a_psi))
      ∷ Effect.print Line.node_close
      ∷ []

  -- The last call of `srand` gives every core the same noise.
  unfoldable pub c_main : ℕ → ℕ → Globals Num → Globals Num × List Effect
  unfolding init_network
  c_main chip_id core_id g =
      let master = is_master chip_id core_id in
      let greeting =
        if master then Effect.print banner ∷ Effect.set_timer_tick tick_time ∷ [] else [] in
      let callbacks =
        if master
        then Effect.callback_on Event.mc_packet_received Handler.event_master 0
          ∷ Effect.callback_on Event.timer_tick Handler.update 0
          ∷ []
        else Effect.callback_on Event.mc_packet_received Handler.event_node 0 ∷ [] in
      (
        record (init_network chip_id core_id g) { seed = srand 0 },
        greeting
            ++ (init_chip_io chip_id
                ++ (start_chip_devices chip_id core_id
                    ++ (callbacks ++ (Effect.start_simulation ∷ [])))),
      )

  -- The values of the globals before `c_main`; `rand` starts as after `srand(1)`.
  unfoldable pub initial : Globals Num
  initial =
      let o = decimal 0 0 in
      let zero_vector = vector o o in
      record {
        chip_id = 0;
        core_id = 0;
        ball = record {
          position = zero_vector;
          speed = zero_vector;
          old_pos = zero_vector;
          sp_x_term = o;
          sp_y_term = o;
          pos_buffer = replicate 4 o;
          speed_buffer = replicate 4 o;
          total_sum_pos = decimal 4 0;
          total_sum_speed = decimal 4 0;
          avg_pos = decimal 1 0;
          avg_speed = decimal 1 0;
          avg_index = 0;
        };
        critic = record { old_v_x = o; old_v_y = o; error_x = decimal 1 0; error_y = decimal 1 0 };
        v_x_array = replicate n_mfm o;
        v_y_array = replicate n_mfm o;
        a_theta_array = replicate n_mfm o;
        a_psi_array = replicate n_mfm o;
        population = record {
          e_x = o;
          e_y = o;
          w_v_x = o;
          w_v_y = o;
          w_a_theta = o;
          w_a_psi = o;
          f_x = o;
          f_y = o;
          center = zero_vector;
        };
        counter = 0;
        n = zero_vector;
        seed = srand 1;
      }

-- ===== src/Tests/Data.antt =====
-- Concrete states of the two versions, on fixed-point numbers.
use spi_nnaker.Prelude.{replicate}
use spi_nnaker.Prelude.Int.{ℤ, pos, negsuc}
use spi_nnaker.Calc.{Vector2d}
use spi_nnaker.Network.{Ball, Critic}
use spi_nnaker.Track.{start}
use spi_nnaker.Sequential.Globals as Seq
use spi_nnaker.Sequential.Controller.{Controller}
use spi_nnaker.Parallel.Globals.{Population}
use spi_nnaker.Parallel.Globals as Par
use spi_nnaker.Parallel.Node.{Node}

abbrev pub at : ℤ → ℤ → Vector2d ℤ
at x y = record { x = x; y = y }

abbrev pub ball : Ball ℤ
ball = record {
  position = at (pos 2500) (negsuc 4999);
  speed = at (pos 0) (pos 0);
  old_pos = at (pos 0) (pos 0);
  sp_x_term = pos 0;
  sp_y_term = pos 0;
  pos_buffer = replicate 4 (pos 10000);
  speed_buffer = replicate 4 (pos 10000);
  total_sum_pos = pos 0;
  total_sum_speed = pos 0;
  avg_pos = pos 0;
  avg_speed = pos 0;
  avg_index = 0;
}

abbrev pub critic : Critic ℤ
critic = record { old_v_x = pos 0; old_v_y = pos 0; error_x = pos 1234; error_y = negsuc 566 }

abbrev pub sequential : Seq.Globals ℤ
sequential = record {
  ball = ball;
  critic = critic;
  center = replicate 64 (at (pos 0) (pos 0));
  e_x_array = replicate 64 (pos 0);
  e_y_array = replicate 64 (pos 0);
  w_v_x_array = replicate 64 (pos 100);
  w_v_y_array = replicate 64 (pos 200);
  w_a_theta_array = replicate 64 (pos 300);
  w_a_psi_array = replicate 64 (pos 400);
  f_x = replicate 64 (pos 1000);
  f_y = replicate 64 (pos 2000);
  n = at (pos 0) (pos 0);
  seed = 7;
}

abbrev pub controller : Controller ℤ
controller = record {
  tracker = start;
  old_time = pos 0;
  state = Seq.State.unbalanced;
  network = sequential;
}

abbrev pub population : Population ℤ
population = record {
  e_x = pos 0;
  e_y = pos 0;
  w_v_x = pos 5000;
  w_v_y = negsuc 4999;
  w_a_theta = pos 8000;
  w_a_psi = pos 300;
  f_x = pos 9000;
  f_y = pos 4000;
  center = at (pos 0) (pos 0);
}

-- The globals of core 3 of chip 256.
abbrev pub parallel : Par.Globals ℤ
parallel = record {
  chip_id = 256;
  core_id = 3;
  ball = ball;
  critic = critic;
  v_x_array = replicate 59 (pos 0);
  v_y_array = replicate 59 (pos 0);
  a_theta_array = replicate 59 (pos 0);
  a_psi_array = replicate 59 (pos 0);
  population = population;
  counter = 0;
  n = at (pos 0) (pos 0);
  seed = 7;
}

abbrev pub node : Node ℤ
node = record { network = parallel; node_counter = 0; sim_count = 1 }

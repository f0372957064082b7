-- ===== src/Sequential/Globals.antt =====
-- The globals of sequential/network.c: 64 populations in arrays, all on one core.
use spi_nnaker.Prelude.{ℕ, List}
use spi_nnaker.Calc.{Vector2d}
use spi_nnaker.Network.{Ball, Critic}

abbrev pub n_mfm : ℕ
n_mfm = 64

-- `state`, the result of `move` among others.
pub data State : Type 0 where
  unbalanced balanced saved : State

-- The globals of sequential/network.c. `seed` is the state of `rand`.
pub record Globals (N : Type 0) : Type 0 where
  pub ball : Ball N
  pub critic : Critic N
  pub center : List (Vector2d N)
  pub e_x_array : List N
  pub e_y_array : List N
  pub w_v_x_array : List N
  pub w_v_y_array : List N
  pub w_a_theta_array : List N
  pub w_a_psi_array : List N
  pub f_x : List N
  pub f_y : List N
  pub n : Vector2d N
  pub seed : ℕ

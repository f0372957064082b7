-- ===== src/Parallel/Globals.antt =====
-- The globals of parallel/network.c. Every core has them all; a node uses its population, and the
-- master the arrays.
use spi_nnaker.Prelude.{ℕ, List}
use spi_nnaker.Calc.{Vector2d}
use spi_nnaker.Network.{Ball, Critic}

abbrev pub n_mfm : ℕ
n_mfm = 59

-- The globals under `slave nodes`.
pub record Population (N : Type 0) : Type 0 where
  pub e_x : N
  pub e_y : N
  pub w_v_x : N
  pub w_v_y : N
  pub w_a_theta : N
  pub w_a_psi : N
  pub f_x : N
  pub f_y : N
  pub center : Vector2d N

-- `seed` is the state of `rand`.
pub record Globals (N : Type 0) : Type 0 where
  pub chip_id : ℕ
  pub core_id : ℕ
  pub ball : Ball N
  pub critic : Critic N
  pub v_x_array : List N
  pub v_y_array : List N
  pub a_theta_array : List N
  pub a_psi_array : List N
  pub population : Population N
  pub counter : ℕ
  pub n : Vector2d N
  pub seed : ℕ

-- ===== src/Sequential/Sizes.antt =====
-- The sizes of the arrays of sequential/network.c.
use spi_nnaker.Prelude.{ℕ, ◌≡◌, List, [], ◌∷◌, length, replicate}
use spi_nnaker.Network.Rings.{RingsFit}
use spi_nnaker.Sequential.Globals.{Globals, n_mfm}

abbrev pub sizes : {N : Type 0} → Globals N → List ℕ
sizes g =
    length g.center
    ∷ length g.e_x_array
    ∷ length g.e_y_array
    ∷ length g.w_v_x_array
    ∷ length g.w_v_y_array
    ∷ length g.w_a_theta_array
    ∷ length g.w_a_psi_array
    ∷ length g.f_x
    ∷ length g.f_y
    ∷ []

-- Every array has the size that it is declared with, and the index of the rings is inside.
pub record ArraysFit {N : Type 0} (g : Globals N) : Type 0 where
  pub arrays : sizes g ≡ replicate 9 n_mfm
  pub rings : RingsFit g.ball

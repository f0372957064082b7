-- ===== src/Sequential/Learning/Sizes.antt =====
-- What learning leaves of the arrays' sizes.
use spi_nnaker.Prelude.{ℕ, length-set}
use spi_nnaker.Prelude.Loop.{for_each-keeps}
use spi_nnaker.Prelude.Int.{ℤ}
use spi_nnaker.Platform.{Platform}
use spi_nnaker.Network
use spi_nnaker.Network.Rings.{normalize_ball_params-RingsFit}
use spi_nnaker.Sequential.Globals.{Globals, n_mfm}
use spi_nnaker.Sequential.Sizes.{ArraysFit}
use spi_nnaker.Sequential.Learning.{
  mfm_round, mfm, value_round, update_v, action_round, update_a, update_error,
}

module _ (P : Platform) where
  open P use {Num}

  mfm_round-ArraysFit : (i : ℕ) (g : Globals Num) → ArraysFit g → ArraysFit (mfm_round P i g)
  unfolding mfm_round
  mfm_round-ArraysFit i g h = record {
    arrays = rw (length-set g.f_x i _, length-set g.f_y i _) h.arrays;
    rings = h.rings;
  }

  pub mfm-ArraysFit : (g : Globals Num) → ArraysFit g → ArraysFit (mfm P g)
  unfolding mfm
  mfm-ArraysFit g h = for_each-keeps ArraysFit mfm_round-ArraysFit n_mfm 0 g h

  value_round-ArraysFit : (i : ℕ) (g : Globals Num) → ArraysFit g → ArraysFit (value_round P i g)
  unfolding value_round
  value_round-ArraysFit i g h = record {
    arrays =
        rw
          (
            length-set g.e_x_array i _,
            length-set g.e_y_array i _,
            length-set g.w_v_x_array i _,
            length-set g.w_v_y_array i _,
          )
          h.arrays;
    rings = h.rings;
  }

  pub update_v-ArraysFit : (g : Globals Num) → ArraysFit g → ArraysFit (update_v P g)
  unfolding update_v
  update_v-ArraysFit g h = for_each-keeps ArraysFit value_round-ArraysFit n_mfm 0 g h

  action_round-ArraysFit : (i : ℕ) (g : Globals Num) → ArraysFit g → ArraysFit (action_round P i g)
  unfolding action_round
  action_round-ArraysFit i g h = record {
    arrays = rw (length-set g.w_a_theta_array i _, length-set g.w_a_psi_array i _) h.arrays;
    rings = h.rings;
  }

  pub update_a-ArraysFit : (g : Globals Num) → ArraysFit g → ArraysFit (update_a P g)
  unfolding update_a
  update_a-ArraysFit g h =
      let (n', seed') = Network.noise P g.seed in
      for_each-keeps ArraysFit action_round-ArraysFit n_mfm 0 (record g { n = n'; seed = seed' })
        (record { arrays = h.arrays; rings = h.rings })

  pub update_error-ArraysFit :
      (x y : ℤ) (t : ℕ) (g : Globals Num) → ArraysFit g → ArraysFit (update_error P x y t g)
  unfolding update_error
  update_error-ArraysFit x y t g h = record {
    arrays = h.arrays;
    rings = normalize_ball_params-RingsFit P x y t h.rings;
  }

-- ===== src/Sequential/Init/Sizes.antt =====
-- What the start leaves of the arrays' sizes.
use spi_nnaker.Prelude.{ℕ, refl, List, [], ◌∷◌, length-set, arith, if-keeps, ◌==◌, ◌-◌, ◌^◌}
use spi_nnaker.Prelude.Loop.{for_each-keeps}
use spi_nnaker.Platform.{Platform}
use spi_nnaker.Network
use spi_nnaker.Calc.{vector}
use spi_nnaker.Sequential.Globals.{Globals, n_mfm}
use spi_nnaker.Sequential.Sizes.{ArraysFit}
use spi_nnaker.Sequential.Init.{
  initial, chips_id, center_index, init_mfm, init_weights, init_buffers, init_params, init_chip,
  init_chips, init_network,
}

module _ (P : Platform) where
  open P use {Num}

  init_mfm-ArraysFit :
      (chip core : ℕ) (g : Globals Num) → ArraysFit g → ArraysFit (init_mfm P chip core g)
  unfolding init_mfm
  init_mfm-ArraysFit chip core g h =
      if-keeps ArraysFit (center_index chip core == 2 ^ 32 - 1) _ _
        (record { arrays = h.arrays; rings = h.rings })
        (record {
          arrays =
              rw (length-set g.center (center_index chip core) (Network.center_of P chip core))
                h.arrays;
          rings = h.rings;
        })

  init_chips-ArraysFit :
      (chips : List ℕ) (g : Globals Num) → ArraysFit g → ArraysFit (init_chips P chips g)
  unfolding init_chips init_chip
  init_chips-ArraysFit [] g h = h
  init_chips-ArraysFit (chip ∷ chips) g h =
      init_chips-ArraysFit chips (init_chip P chip g)
        (for_each-keeps ArraysFit (init_mfm-ArraysFit chip) 16 0 g h)

  init_weights-ArraysFit : (i : ℕ) (g : Globals Num) → ArraysFit g → ArraysFit (init_weights P i g)
  unfolding init_weights
  init_weights-ArraysFit i g h = record {
    arrays =
        rw
          (
            length-set g.w_v_x_array i _,
            length-set g.w_v_y_array i _,
            length-set g.w_a_theta_array i _,
            length-set g.w_a_psi_array i _,
          )
          h.arrays;
    rings = h.rings;
  }

  init_buffers-ArraysFit : (i : ℕ) (g : Globals Num) → ArraysFit g → ArraysFit (init_buffers P i g)
  unfolding init_buffers
  init_buffers-ArraysFit i g h = record {
    arrays = h.arrays;
    rings = record {
      length_pos = rw (length-set g.ball.pos_buffer i (P.decimal 1 0)) h.rings.length_pos;
      length_speed = rw (length-set g.ball.speed_buffer i (P.decimal 1 0)) h.rings.length_speed;
      index_in = h.rings.index_in;
    };
  }

  pub init_network-ArraysFit :
      (noise_seed : ℕ) (g : Globals Num) → ArraysFit g → ArraysFit (init_network P noise_seed g)
  unfolding init_network init_params
  init_network-ArraysFit noise_seed g h =
      let zero_vector = vector (P.decimal 0 0) (P.decimal 0 0) in
      let left = vector (P.neg (P.decimal 1 0)) (P.decimal 0 0) in
      let cleared : Globals Num = record g {
        ball = record (g.ball) { position = left; old_pos = left; speed = zero_vector };
        n = zero_vector;
        seed = P.srand noise_seed;
      } in
      for_each-keeps ArraysFit init_buffers-ArraysFit 4 0 _ (
        for_each-keeps ArraysFit init_weights-ArraysFit n_mfm 0 _ (
          init_chips-ArraysFit chips_id cleared (record {
            arrays = h.arrays;
            rings = record {
              length_pos = h.rings.length_pos;
              length_speed = h.rings.length_speed;
              index_in = h.rings.index_in;
            };
          })))

  pub initial-ArraysFit : ArraysFit (initial P)
  unfolding initial
  initial-ArraysFit = record {
    arrays = refl;
    rings = record { length_pos = refl; length_speed = refl; index_in = omega arith };
  }

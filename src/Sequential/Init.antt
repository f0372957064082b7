-- ===== src/Sequential/Init.antt =====
-- The initialisation and the saving of the network: `init_MFM`, `init_params_`, `init_network`,
-- `save_` and `load_` of sequential/network.c.
pub mod Centers
pub mod Sizes
use spi_nnaker.Prelude.{
  ℕ, ◌+◌, ◌-◌, ◌*◌, ◌/◌, ◌%◌, ◌^◌, bit_and, List, [], ◌∷◌, ◌++◌, set, replicate, ◌==◌,
  if◌then◌else◌,
}
use spi_nnaker.Prelude.Loop.{for_each}
use spi_nnaker.Prelude.Int.{ℤ, pos}
use spi_nnaker.Platform.{Platform}
use spi_nnaker.Calc
use spi_nnaker.Calc.{vector}
use spi_nnaker.Device.{Effect, print, Line, w_v_x_line, w_v_y_line, w_a_theta_line, w_a_psi_line}
use spi_nnaker.Network
use spi_nnaker.Sequential.Globals.{n_mfm, Globals}

-- `CORE_NB(chipY, chipX, coreID)`, in `unsigned int`: `coreID - 1` wraps at 0.
unfoldable pub core_nb : ℕ → ℕ → ℕ → ℕ
core_nb chip_y chip_x core_id =
    (32 * chip_y + 16 * chip_x + (core_id + 2 ^ 32 - 1) % 2 ^ 32) % 2 ^ 32

-- The element of `center` that `init_MFM` writes.
unfoldable pub center_index : ℕ → ℕ → ℕ
unfolding core_nb
center_index chip_id core_id = core_nb (chip_id / 256) (bit_and chip_id 0xff) core_id

-- `chipsID`
abbrev pub chips_id : List ℕ
chips_id = 0 ∷ 1 ∷ 256 ∷ 257 ∷ []

module _ (P : Platform) where
  open P use {Num, ◌⊕◌, ◌⊖◌, ◌⊗◌, ◌⊘◌, neg, single, less, decimal, of_int, to_int, srand}

  infixl 65 ◌⊕◌ ◌⊖◌
  infixl 70 ◌⊗◌ ◌⊘◌
  -- The values of the globals before `c_main`; `rand` starts as after `srand(1)`.
  unfoldable pub initial : Globals Num
  initial =
      let o = decimal 0 0 in
      let zero_vector = vector o o in
      record {
        ball = record {
          position = zero_vector;
          speed = zero_vector;
          old_pos = zero_vector;
          sp_x_term = o;
          sp_y_term = o;
          pos_buffer = replicate 4 o;
          speed_buffer = replicate 4 o;
          total_sum_pos = decimal 4 0;
          total_sum_speed = decimal 4 0;
          avg_pos = decimal 1 0;
          avg_speed = decimal 1 0;
          avg_index = 0;
        };
        critic = record { old_v_x = o; old_v_y = o; error_x = decimal 1 0; error_y = decimal 1 0 };
        center = replicate n_mfm zero_vector;
        e_x_array = replicate n_mfm o;
        e_y_array = replicate n_mfm o;
        w_v_x_array = replicate n_mfm o;
        w_v_y_array = replicate n_mfm o;
        w_a_theta_array = replicate n_mfm o;
        w_a_psi_array = replicate n_mfm o;
        f_x = replicate n_mfm o;
        f_y = replicate n_mfm o;
        n = zero_vector;
        seed = srand 1;
      }

  -- `center` has 64 elements of 8 bytes, and index 2 ^ 32 - 1, that of core 0 of chip 0, is the place right
  -- below it on a machine of 32 bits. C does not say what lies there; in sequential/BallController.elf it is
  -- `n`, so that `n` takes the centre there.
  unfoldable pub init_mfm : ℕ → ℕ → Globals Num → Globals Num
  unfolding center_index
  init_mfm chip_id core_id g =
      let index = center_index chip_id core_id in
      let place = Network.center_of P chip_id core_id in
      if index == 2 ^ 32 - 1
      then record g { n = place }
      else record g { center = set g.center index place }

  -- One round of the loop of `init_params_`.
  unfoldable pub init_weights : ℕ → Globals Num → Globals Num
  init_weights i g =
      let (a, s1) = Network.first_weight P g.seed in
      let (b, s2) = Network.first_weight P s1 in
      let (c, s3) = Network.first_weight P s2 in
      let (d, s4) = Network.first_weight P s3 in
      record g {
        w_v_x_array = set g.w_v_x_array i a;
        w_v_y_array = set g.w_v_y_array i b;
        w_a_theta_array = set g.w_a_theta_array i c;
        w_a_psi_array = set g.w_a_psi_array i d;
        seed = s4;
      }

  unfoldable pub init_buffers : ℕ → Globals Num → Globals Num
  init_buffers i g = record g {
    ball = record (g.ball) {
      pos_buffer = set g.ball.pos_buffer i (decimal 1 0);
      speed_buffer = set g.ball.speed_buffer i (decimal 1 0);
    };
  }

  unfoldable pub init_params : Globals Num → Globals Num
  unfolding for_each init_weights init_buffers
  init_params g = for_each 4 0 init_buffers (for_each n_mfm 0 init_weights g)

  -- The 16 rounds over `coreID`, for one chip.
  unfoldable pub init_chip : ℕ → Globals Num → Globals Num
  unfolding for_each init_mfm
  init_chip chip_id g = for_each 16 0 (init_mfm chip_id) g

  unfoldable pub init_chips : List ℕ → Globals Num → Globals Num
  unfolding init_chip
  init_chips [] g = g
  init_chips (chip_id ∷ chips) g = init_chips chips (init_chip chip_id g)

  unfoldable pub init_network : ℕ → Globals Num → Globals Num
  unfolding init_chips init_params
  init_network noise_seed g =
      let zero_vector = vector (decimal 0 0) (decimal 0 0) in
      let left = vector (neg (decimal 1 0)) (decimal 0 0) in
      init_params (
        init_chips chips_id (record g {
          ball = record (g.ball) { position = left; old_pos = left; speed = zero_vector };
          n = zero_vector;
          seed = srand noise_seed;
        }))

  -- One array of `save_`, from element `i` on.
  save_array : (ℕ → ℤ → Line) → ℕ → List Num → List Effect
  save_array line i [] = []
  save_array line i (w ∷ ws) =
      print (line i (to_int (single (w ⊗ of_int (pos 1000))))) ∷ save_array line (i + 1) ws

  unfoldable pub save : Globals Num → List Effect
  unfolding save_array
  save g =
      save_array w_v_x_line 0 g.w_v_x_array
      ++ (save_array w_v_y_line 0 g.w_v_y_array
          ++ (save_array w_a_theta_line 0 g.w_a_theta_array
              ++ save_array w_a_psi_line 0 g.w_a_psi_array))

  -- `load_`: its body is a comment.
  unfoldable pub load : Globals Num → Globals Num
  load g = g

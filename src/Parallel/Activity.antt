-- ===== src/Parallel/Activity.antt =====
-- The activation of a population, its centre and the noise of the actor, one assignment after the
-- other: `init_MFM`, `IF`, `sigma_x`, `sigma_y` and `noise` of parallel/network.c.
-- (parallel/network.c 321-344, 411-429, 593-622)
use spi_nnaker.Prelude.{ℕ, ◌/◌, ◌^◌, bit_and, if◌then◌else◌}
use spi_nnaker.Prelude.Int.{pos}
use spi_nnaker.Platform.{Platform}
use spi_nnaker.Calc
use spi_nnaker.Calc.{Vector2d, vector}
use spi_nnaker.Network.{Critic}
use spi_nnaker.Network.Constants.{alpha, beta, k, sigma_0}
use spi_nnaker.Parallel.Globals.{Globals}

module _ (P : Platform) where
  open P use {Num, ◌⊕◌, ◌⊖◌, ◌⊗◌, ◌⊘◌, neg, single, less, same, decimal, of_int, sqrt, cos, sin}
  open P use {rand, rand_max}

  infixl 65 ◌⊕◌ ◌⊖◌
  infixl 70 ◌⊗◌ ◌⊘◌
  -- The population's centre, from the chip and the core that the node runs on.
  unfoldable pub init_mfm : Globals Num → Globals Num
  init_mfm g =
      let chip_x = bit_and g.chip_id 0xff in
      let chip_y = g.chip_id / 2 ^ 8 in
      let core_x = bit_and g.core_id 3 in
      let core_y = g.core_id / 2 ^ 2 in
      let p1 = single (single (of_int (pos core_x)) ⊘ decimal 4 0) in
      let p2 = single (single (of_int (pos core_y)) ⊘ decimal 4 0) in
      let p1 = if same p1 (decimal 0 0) then single (decimal 9 2) else p1 in
      let r = single (decimal 115 2 ⊗ sqrt (p1 ⊖ decimal 5 2)) in
      let half_pi = decimal 3141527 6 ⊘ decimal 2 0 in
      let base_theta = half_pi ⊗ (of_int (pos chip_x) ⊕ decimal 2 0 ⊗ of_int (pos chip_y)) in
      let theta = single (half_pi ⊗ p2 ⊕ base_theta) in
      let x = single (r ⊗ cos theta) in
      let y = single (r ⊗ sin theta) in
      let p = g.population in
      let g1 : Globals Num = record g {
        population = record p { center = record (p.center) { x = x } };
      } in
      let p = g1.population in
      record g1 { population = record p { center = record (p.center) { y = y } } }

  -- `IF`
  unfoldable pub activation : Num → Num
  activation input =
      let thr2 = decimal 1 0 in
      let output =
        if less input (alpha P) then decimal 0 0 else single (beta P ⊗ (input ⊖ alpha P)) in
      if less thr2 output then thr2 else output

  unfoldable pub sigma_x : Critic Num → Num
  sigma_x c =
      let room = single (decimal 1 0 ⊖ c.old_v_x) in
      single (sigma_0 P ⊗ Calc.min P (single (k P)) (Calc.max P (decimal 0 0) room))

  unfoldable pub sigma_y : Critic Num → Num
  sigma_y c =
      let room = single (decimal 1 0 ⊖ c.old_v_y) in
      single (sigma_0 P ⊗ Calc.min P (single (k P)) (Calc.max P (decimal 0 0) room))

  -- The noise and the next state of the generator. `U1` is drawn and not used: `log` is replaced by
  -- a constant.
  unfoldable pub noise : ℕ → Vector2d Num × ℕ
  noise seed =
      let (_, seed1) = rand seed in
      let (n2, seed2) = rand seed1 in
      let u2 = single (single (of_int (pos n2)) ⊘ single (of_int (pos rand_max))) in
      let r = single (sqrt (neg (decimal 2 0) ⊗ neg (decimal 693147 6))) in
      let theta = single (decimal 2 0 ⊗ decimal 3141527 6 ⊗ u2) in
      let v =
        Calc.v_mul P (single (decimal 5 1))
          (vector (single (r ⊗ cos theta)) (single (r ⊗ sin theta))) in
      let v1 : Vector2d Num = record v { x = Calc.range P v.x (neg (decimal 1 0)) (decimal 1 0) } in
      let v2 : Vector2d Num = record v1 {
        y = Calc.range P v1.y (neg (decimal 1 0)) (decimal 1 0);
      } in
      (v2, seed2)

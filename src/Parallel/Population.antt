-- ===== src/Parallel/Population.antt =====
-- What a node computes of its own population: `mfm_`, `update_V` and `update_A` of
-- parallel/network.c.
use spi_nnaker.Platform.{Platform}
use spi_nnaker.Calc
use spi_nnaker.Network.Constants.{gamma, lambda, learning_rate_v, learning_rate_a, tau_m}
use spi_nnaker.Parallel.Globals.{Globals}
use spi_nnaker.Parallel.Activity

module _ (P : Platform) where
  open P use {Num, ◌⊕◌, ◌⊖◌, ◌⊗◌, ◌⊘◌, neg, single, decimal}

  infixl 65 ◌⊕◌ ◌⊖◌
  infixl 70 ◌⊗◌ ◌⊘◌
  unfoldable pub mfm : Globals Num → Globals Num
  mfm g =
      let p = g.population in
      let distance = Calc.v_sub P g.ball.position p.center in
      let dist_x = Calc.f_abs P distance.x in
      let dist_y = Calc.f_abs P distance.y in
      let i_ext_x = single ((decimal 2 0 ⊖ dist_x) ⊘ decimal 2 0) in
      let dv_x = single (single (neg p.f_x ⊕ Activity.activation P i_ext_x) ⊗ tau_m P) in
      let i_ext_y = single ((decimal 2 0 ⊖ dist_y) ⊘ decimal 2 0) in
      let dv_y = single (single (neg p.f_y ⊕ Activity.activation P i_ext_y) ⊗ tau_m P) in
      record g {
        population = record p { f_x = single (p.f_x ⊕ dv_x); f_y = single (p.f_y ⊕ dv_y) };
      }

  unfoldable pub update_v : Globals Num → Globals Num
  update_v g =
      let p = g.population in
      let e_x = single (lambda P ⊗ gamma P ⊗ p.e_x ⊕ p.f_x) in
      let e_y = single (lambda P ⊗ gamma P ⊗ p.e_y ⊕ p.f_y) in
      record g {
        population = record p {
          e_x = e_x;
          w_v_x = single (p.w_v_x ⊕ learning_rate_v P ⊗ g.critic.error_x ⊗ e_x);
          e_y = e_y;
          w_v_y = single (p.w_v_y ⊕ learning_rate_v P ⊗ g.critic.error_y ⊗ e_y);
        };
      }

  unfoldable pub update_a : Globals Num → Globals Num
  update_a g =
      let (n', seed') = Activity.noise P g.seed in
      let p = g.population in
      record g {
        n = n';
        seed = seed';
        population = record p {
          w_a_theta = single (p.w_a_theta ⊖ learning_rate_a P ⊗ g.critic.error_x ⊗ n'.x ⊗ p.f_x);
          w_a_psi = single (p.w_a_psi ⊖ learning_rate_a P ⊗ g.critic.error_y ⊗ n'.y ⊗ p.f_y);
        };
      }

-- ===== src/Agreement/Rounds.antt =====
-- The rounds of the loops of sequential/network.c, one element of the arrays at a time.
use spi_nnaker.Prelude.{
  ℕ, ◌≡◌, refl, ◌∙◌, arith, length, get_or, length-set, get_or-set_self, get_or-set_ne,
}
use spi_nnaker.Prelude.Loop.{IsSlotwise}
use spi_nnaker.Platform.{Platform}
use spi_nnaker.Calc.{Vector2d, vector}
use spi_nnaker.Network
use spi_nnaker.Network.{Ball, Critic}
use spi_nnaker.Parallel.Activity
use spi_nnaker.Sequential.Globals.{n_mfm, Globals}
use spi_nnaker.Sequential.Learning.{
  mfm_round, value_round, action_round, relax, next_trace, next_value_weight, next_action_weight,
}
use spi_nnaker.Sequential.Learning
use spi_nnaker.Parallel.Globals.{Population}
use spi_nnaker.Parallel.Globals as Par
use spi_nnaker.Parallel.Population as Node

-- Every array has room for all populations.
pub record Fits {N : Type 0} (g : Globals N) : Type 0 where
  pub e_x_fits : length g.e_x_array ≡ n_mfm
  pub e_y_fits : length g.e_y_array ≡ n_mfm
  pub w_v_x_fits : length g.w_v_x_array ≡ n_mfm
  pub w_v_y_fits : length g.w_v_y_array ≡ n_mfm
  pub w_a_theta_fits : length g.w_a_theta_array ≡ n_mfm
  pub w_a_psi_fits : length g.w_a_psi_array ≡ n_mfm
  pub f_x_fits : length g.f_x ≡ n_mfm
  pub f_y_fits : length g.f_y ≡ n_mfm

-- What every round reads and none writes.
abbrev pub Common : Type 0 → Type 0
Common N = record { ball : Ball N; critic : Critic N; n : Vector2d N; seed : ℕ }

abbrev pub common : {N : Type 0} → Globals N → Common N
common g = record { ball = g.ball; critic = g.critic; n = g.n; seed = g.seed }

module _ (P : Platform) where
  open P use {Num, decimal}

  -- Element `j` of the arrays.
  abbrev pub slot : ℕ → Globals Num → Population Num
  slot j g = record {
    e_x = get_or g.e_x_array j (decimal 0 0);
    e_y = get_or g.e_y_array j (decimal 0 0);
    w_v_x = get_or g.w_v_x_array j (decimal 0 0);
    w_v_y = get_or g.w_v_y_array j (decimal 0 0);
    w_a_theta = get_or g.w_a_theta_array j (decimal 0 0);
    w_a_psi = get_or g.w_a_psi_array j (decimal 0 0);
    f_x = get_or g.f_x j (decimal 0 0);
    f_y = get_or g.f_y j (decimal 0 0);
    center = get_or g.center j (vector (decimal 0 0) (decimal 0 0));
  }

  -- A node's globals, given what it shares with the others and its population.
  abbrev pub node : Par.Globals Num → Common Num → Population Num → Par.Globals Num
  node b c p = record b { ball = c.ball; critic = c.critic; n = c.n; seed = c.seed; population = p }

  module _ (b : Par.Globals Num) where
    abbrev pub mfm_step : Common Num → Population Num → Population Num
    mfm_step c p = (Node.mfm P (node b c p)).population

    abbrev pub value_step : Common Num → Population Num → Population Num
    value_step c p = (Node.update_v P (node b c p)).population

    pub mfm_round-IsSlotwise : IsSlotwise Fits slot common mfm_step n_mfm (Learning.mfm_round P)
    unfolding mfm_round relax Node.mfm Activity.activation Network.activation
    mfm_round-IsSlotwise = record {
      fits = λ i g f. record {
        f_x_fits = length-set g.f_x i _ ∙ f.f_x_fits;
        f_y_fits = length-set g.f_y i _ ∙ f.f_y_fits;
        e_x_fits = f.e_x_fits;
        e_y_fits = f.e_y_fits;
        w_v_x_fits = f.w_v_x_fits;
        w_v_y_fits = f.w_v_y_fits;
        w_a_theta_fits = f.w_a_theta_fits;
        w_a_psi_fits = f.w_a_psi_fits;
      };
      at_slot = λ i g h f k. record (slot i g) {
        f_x =
            get_or-set_self g.f_x i (mfm_step (common g) (slot i g)).f_x (decimal 0 0) (omega arith)
              k;
        f_y =
            get_or-set_self g.f_y i (mfm_step (common g) (slot i g)).f_y (decimal 0 0) (omega arith)
              k;
      };
      elsewhere = λ i j g ne k. record (slot j g) {
        f_x = get_or-set_ne g.f_x (mfm_step (common g) (slot i g)).f_x (decimal 0 0) ne k;
        f_y = get_or-set_ne g.f_y (mfm_step (common g) (slot i g)).f_y (decimal 0 0) ne k;
      };
      same_common = λ i g. refl;
    }

    pub value_round-IsSlotwise :
        IsSlotwise Fits slot common value_step n_mfm (Learning.value_round P)
    unfolding value_round next_trace next_value_weight Node.update_v
    value_round-IsSlotwise = record {
      fits = λ i g f. record {
        e_x_fits = length-set g.e_x_array i _ ∙ f.e_x_fits;
        e_y_fits = length-set g.e_y_array i _ ∙ f.e_y_fits;
        w_v_x_fits = length-set g.w_v_x_array i _ ∙ f.w_v_x_fits;
        w_v_y_fits = length-set g.w_v_y_array i _ ∙ f.w_v_y_fits;
        w_a_theta_fits = f.w_a_theta_fits;
        w_a_psi_fits = f.w_a_psi_fits;
        f_x_fits = f.f_x_fits;
        f_y_fits = f.f_y_fits;
      };
      at_slot = λ i g h f k. record (slot i g) {
        e_x =
            get_or-set_self g.e_x_array i (value_step (common g) (slot i g)).e_x (decimal 0 0)
              (omega arith) k;
        e_y =
            get_or-set_self g.e_y_array i (value_step (common g) (slot i g)).e_y (decimal 0 0)
              (omega arith) k;
        w_v_x =
            get_or-set_self g.w_v_x_array i (value_step (common g) (slot i g)).w_v_x (decimal 0 0)
              (omega arith) k;
        w_v_y =
            get_or-set_self g.w_v_y_array i (value_step (common g) (slot i g)).w_v_y (decimal 0 0)
              (omega arith) k;
      };
      elsewhere = λ i j g ne k. record (slot j g) {
        e_x = get_or-set_ne g.e_x_array (value_step (common g) (slot i g)).e_x (decimal 0 0) ne k;
        e_y = get_or-set_ne g.e_y_array (value_step (common g) (slot i g)).e_y (decimal 0 0) ne k;
        w_v_x =
            get_or-set_ne g.w_v_x_array (value_step (common g) (slot i g)).w_v_x (decimal 0 0) ne k;
        w_v_y =
            get_or-set_ne g.w_v_y_array (value_step (common g) (slot i g)).w_v_y (decimal 0 0) ne k;
      };
      same_common = λ i g. refl;
    }

  -- The actor's step with the noise already drawn.
  abbrev pub action_step : Common Num → Population Num → Population Num
  action_step c p = record p {
    w_a_theta = Learning.next_action_weight P p.w_a_theta c.critic.error_x c.n.x p.f_x;
    w_a_psi = Learning.next_action_weight P p.w_a_psi c.critic.error_y c.n.y p.f_y;
  }

  pub action_round-IsSlotwise :
      IsSlotwise Fits slot common action_step n_mfm (Learning.action_round P)
  unfolding action_round
  action_round-IsSlotwise = record {
    fits = λ i g f. record {
      w_a_theta_fits = length-set g.w_a_theta_array i _ ∙ f.w_a_theta_fits;
      w_a_psi_fits = length-set g.w_a_psi_array i _ ∙ f.w_a_psi_fits;
      e_x_fits = f.e_x_fits;
      e_y_fits = f.e_y_fits;
      w_v_x_fits = f.w_v_x_fits;
      w_v_y_fits = f.w_v_y_fits;
      f_x_fits = f.f_x_fits;
      f_y_fits = f.f_y_fits;
    };
    at_slot = λ i g h f k. record (slot i g) {
      w_a_theta =
          get_or-set_self g.w_a_theta_array i (action_step (common g) (slot i g)).w_a_theta
            (decimal 0 0) (omega arith) k;
      w_a_psi =
          get_or-set_self g.w_a_psi_array i (action_step (common g) (slot i g)).w_a_psi
            (decimal 0 0) (omega arith) k;
    };
    elsewhere = λ i j g ne k. record (slot j g) {
      w_a_theta =
          get_or-set_ne g.w_a_theta_array (action_step (common g) (slot i g)).w_a_theta
            (decimal 0 0) ne k;
      w_a_psi =
          get_or-set_ne g.w_a_psi_array (action_step (common g) (slot i g)).w_a_psi (decimal 0 0) ne
            k;
    };
    same_common = λ i g. refl;
  }

-- ===== src/Network/Rings.antt =====
-- The two rings of `average_params`, which hold the last four distances and speeds.
use spi_nnaker.Prelude.{ℕ, ◌%◌, ◌<◌, ◌≡◌, ◌∙◌, arith, length, length-set, if-keeps, ◌==◌}
use spi_nnaker.Prelude.Int.{ℤ}
use spi_nnaker.Platform.{Platform}
use spi_nnaker.Calc
use spi_nnaker.Network.{Ball, average_params, compute_speed, normalize_ball_params}

-- Every write of `average_params` is inside the rings.
pub record RingsFit {N : Type 0} (b : Ball N) : Type 0 where
  pub length_pos : length b.pos_buffer ≡ 4
  pub length_speed : length b.speed_buffer ≡ 4
  pub index_in : b.avg_index < 4

module _ (P : Platform) where
  open P use {Num}

  average_params-RingsFit : {b : Ball Num} → RingsFit b → RingsFit (average_params P b)
  unfolding average_params
  average_params-RingsFit {b} r = record {
    length_pos = length-set b.pos_buffer b.avg_index (Calc.v_norm P b.position) ∙ r.length_pos;
    length_speed = length-set b.speed_buffer b.avg_index (Calc.v_norm P b.speed) ∙ r.length_speed;
    index_in = omega arith;
  }

  compute_speed-RingsFit : (t : ℕ) {b : Ball Num} → RingsFit b → RingsFit (compute_speed P t b)
  unfolding compute_speed
  compute_speed-RingsFit t {b} r =
      if-keeps RingsFit (t % 5 == 0) _ _
        (record { length_pos = r.length_pos; length_speed = r.length_speed; index_in = r.index_in })
        r

  pub normalize_ball_params-RingsFit :
      (x y : ℤ) (t : ℕ) {b : Ball Num} → RingsFit b → RingsFit (normalize_ball_params P x y t b)
  unfolding normalize_ball_params
  normalize_ball_params-RingsFit x y t {b} r = average_params-RingsFit (
      compute_speed-RingsFit t (record {
        length_pos = r.length_pos;
        length_speed = r.length_speed;
        index_in = r.index_in;
      }))

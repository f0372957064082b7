-- ===== src/Parallel/Motion/Agrees.antt =====
-- The ball of the parallel version against the description in Network, and its rings.
use spi_nnaker.Prelude.{ℕ, ◌≡◌, refl, ap, ◌∙◌, Bool-cases, inl, inr}
use spi_nnaker.Prelude.Int.{ℤ}
use spi_nnaker.Platform.{Platform}
use spi_nnaker.Calc
use spi_nnaker.Calc.{Vector2d}
use spi_nnaker.Network
use spi_nnaker.Network.{Ball}
use spi_nnaker.Network.Rings.{RingsFit}
use spi_nnaker.Network.Rings
use spi_nnaker.Parallel.Motion

module _ (P : Platform) where
  open P use {Num, less, decimal}

  average_params-agrees : (b : Ball Num) → Motion.average_params P b ≡ Network.average_params P b
  unfolding Motion.average_params Network.average_params
  average_params-agrees b = refl

  compute_speed-agrees :
      (t : ℕ) (b : Ball Num) → Motion.compute_speed P t b ≡ Network.compute_speed P t b
  unfolding Motion.compute_speed Motion.new_speed Network.compute_speed
  compute_speed-agrees t b = refl

  shrink-agrees :
      (b : Ball Num) → Motion.shrink P b ≡ record b { position = Network.onto_disk P b.position }
  unfolding Motion.shrink Network.onto_disk
  shrink-agrees b = elim (Bool-cases (less (decimal 1 0) (Calc.v_norm P b.position))) [
    | inl far ↦ rw far refl
    | inr near ↦ rw near refl
  ]

  pub normalize_ball_params-agrees :
      (x y : ℤ) (t : ℕ) (b : Ball Num)
      → Motion.normalize_ball_params P x y t b ≡ Network.normalize_ball_params P x y t b
  unfolding Motion.normalize_ball_params Network.normalize_ball_params
  normalize_ball_params-agrees x y t b =
      let raw : Vector2d Num = record {
        x = P.single (P.◌⊕◌ (P.◌⊗◌ (Network.a_x P) (P.of_int x)) (Network.b_x P));
        y = P.single (P.◌⊕◌ (P.◌⊗◌ (Network.a_y P) (P.of_int y)) (Network.b_y P));
      } in
      let b2 : Ball Num = record b { position = raw } in
      average_params-agrees (Motion.compute_speed P t (Motion.shrink P b2))
      ∙ ap (Network.average_params P) (
          compute_speed-agrees t (Motion.shrink P b2)
          ∙ ap (Network.compute_speed P t) (shrink-agrees b2))

  -- The arrays of the ball keep their four elements.
  pub normalize_ball_params-RingsFit :
      (x y : ℤ) (t : ℕ) {b : Ball Num}
      → RingsFit b
      → RingsFit (Motion.normalize_ball_params P x y t b)
  normalize_ball_params-RingsFit x y t {b} r =
      rw normalize_ball_params-agrees (Rings.normalize_ball_params-RingsFit P x y t r)

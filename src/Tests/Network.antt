-- ===== src/Tests/Network.antt =====
-- The networks of the two versions.
use spi_nnaker.Prelude.{◌≡◌, refl, [], ◌∷◌, ◌++◌, map, replicate, arith}
use spi_nnaker.Prelude.Int.{pos}
use spi_nnaker.Platform.Fixed.{fixed}
use spi_nnaker.Sequential.Init.{init_network}
use spi_nnaker.Sequential.Init.Centers.{placed}
use spi_nnaker.Parallel.Start
use spi_nnaker.Agreement.Centers.{centers-agree}
use spi_nnaker.Sequential.Learning
use spi_nnaker.Parallel.Population
use spi_nnaker.Agreement.{seen, learning-agrees}
use spi_nnaker.Agreement.Rounds.{Fits}
use spi_nnaker.Tests.Data.{at, sequential, parallel}

abbrev sequential-Fits : Fits sequential
sequential-Fits = record {
  e_x_fits = refl;
  e_y_fits = refl;
  w_v_x_fits = refl;
  w_v_y_fits = refl;
  w_a_theta_fits = refl;
  w_a_psi_fits = refl;
  f_x_fits = refl;
  f_y_fits = refl;
}

learning-agrees_example :
    seen fixed parallel 37
      (Learning.update_v fixed (Learning.update_a fixed (Learning.mfm fixed sequential)))
    ≡ Population.update_v fixed
        (Population.update_a fixed (Population.mfm fixed (seen fixed parallel 37 sequential)))
learning-agrees_example = learning-agrees fixed parallel 37 sequential (omega arith) sequential-Fits

centers-agree_example :
    (init_network fixed 0 (record sequential { center = replicate 64 (at (pos 5) (pos 6)) })).center
    ≡ map (λ p. (Start.init_network fixed p.0 p.1 parallel).population.center) placed
      ++ (at (pos 5) (pos 6) ∷ [])
centers-agree_example = centers-agree fixed 0 (at (pos 5) (pos 6)) sequential parallel

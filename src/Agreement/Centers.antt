-- ===== src/Agreement/Centers.antt =====
-- The centres of the populations in the two versions side by side.
-- (sequential/network.c 395-418, 445-469; parallel/network.c 321-344, 370-386)
use spi_nnaker.Prelude.{ℕ, ◌≡◌, refl, ap, ◌∙◌, fun_ext, [], ◌∷◌, ◌++◌, map, replicate}
use spi_nnaker.Platform.{Platform}
use spi_nnaker.Calc.{Vector2d}
use spi_nnaker.Network
use spi_nnaker.Sequential.Globals.{Globals}
use spi_nnaker.Sequential.Init
use spi_nnaker.Sequential.Init.Centers.{placed, init_network-center}
use spi_nnaker.Parallel.Globals as Par
use spi_nnaker.Parallel.Activity
use spi_nnaker.Parallel.Start

module _ (P : Platform) where
  open P use {Num}

  -- The centre of a node after its `init_network`, whatever its globals held.
  node_center :
      (h : Par.Globals Num) (place : ℕ × ℕ)
      → Network.center_of P place.0 place.1
        ≡ (Start.init_network P place.0 place.1 h).population.center
  unfolding Start.init_network Start.init_params Activity.init_mfm Network.center_of
  node_center h place = refl

  -- After the sequential `init_network`, on a `center` that held 64 times `v`, populations 0 to 62 have
  -- the centres that the nodes of the parallel version compute on the cores of the four chips in their
  -- order, core 0 of chip 0 left out, and population 63 keeps `v`.
  pub centers-agree :
      (noise_seed : ℕ) (v : Vector2d Num) (g : Globals Num) (h : Par.Globals Num)
      → (Init.init_network P noise_seed (record g { center = replicate 64 v })).center
        ≡ map (λ p. (Start.init_network P p.0 p.1 h).population.center) placed ++ (v ∷ [])
  centers-agree noise_seed v g h =
      init_network-center P noise_seed v g
      ∙ ap (λ (f : ℕ × ℕ → Vector2d Num). map f placed ++ (v ∷ [])) (fun_ext (node_center h))

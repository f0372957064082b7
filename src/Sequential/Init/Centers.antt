-- ===== src/Sequential/Init/Centers.antt =====
-- Which core's centre each population of the sequential version gets.
use spi_nnaker.Prelude.{ℕ, ◌≡◌, refl, List, [], ◌∷◌, ◌++◌, map, replicate, ◌<◌, All, arith}
use spi_nnaker.Platform.{Platform}
use spi_nnaker.Calc.{Vector2d}
use spi_nnaker.Network
use spi_nnaker.Sequential.Globals.{Globals, n_mfm}
use spi_nnaker.Sequential.Init.{init_network, center_index}

-- A core of a chip.
abbrev cores_of : ℕ → List ℕ → List (ℕ × ℕ)
cores_of chip [] = []
cores_of chip (core ∷ cores) = (chip, core) ∷ cores_of chip cores

abbrev one_to_fifteen : List ℕ
one_to_fifteen = 1 ∷ 2 ∷ 3 ∷ 4 ∷ 5 ∷ 6 ∷ 7 ∷ 8 ∷ 9 ∷ 10 ∷ 11 ∷ 12 ∷ 13 ∷ 14 ∷ 15 ∷ []

abbrev zero_to_fifteen : List ℕ
zero_to_fifteen = 0 ∷ one_to_fifteen

-- The cores whose centres the populations 0 to 62 get: every core of the four chips but core 0 of
-- the first.
abbrev pub placed : List (ℕ × ℕ)
placed =
    cores_of 0 one_to_fifteen
    ++ (cores_of 1 zero_to_fifteen
        ++ (cores_of 256 zero_to_fifteen ++ cores_of 257 zero_to_fifteen))

-- On these cores `init_MFM` writes inside `center`.
pub center_index-placed : All (λ (p : ℕ × ℕ). center_index p.0 p.1 < n_mfm) placed
unfolding center_index
center_index-placed = omega arith

module _ (P : Platform) where
  open P use {Num}

  -- The 64 centres after `init_network`, when the array holds 64 times `v` before: populations 0 to 62
  -- have the centres of the cores in their order, core 0 of chip 0 left out, and population 63 keeps `v`.
  pub init_network-center :
      (noise_seed : ℕ) (v : Vector2d Num) (g : Globals Num)
      → (init_network P noise_seed (record g { center = replicate 64 v })).center
        ≡ map (λ p. Network.center_of P p.0 p.1) placed ++ (v ∷ [])
  unfolding init_network
  init_network-center noise_seed v g = refl

  -- `init_network` clears `n`, and its write below `center` then leaves the centre of core 0 of chip 0 there.
  pub init_network-n :
      (noise_seed : ℕ) (g : Globals Num) → (init_network P noise_seed g).n ≡ Network.center_of P 0 0
  unfolding init_network
  init_network-n noise_seed g = refl

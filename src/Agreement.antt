-- ===== src/Agreement.antt =====
-- The learning step of the two versions side by side: element `j` of the sequential arrays, and the
-- node of population `j`.
-- (sequential/network.c 527-549, 618-628, 683-691; parallel/network.c 431-449, 522-528, 585-590)
pub mod Rounds
pub mod Math
pub mod Reward
pub mod Centers
use spi_nnaker.Prelude.{ℕ, ◌<◌, ◌≡◌, ap, ◌∙◌, arith}
use spi_nnaker.Prelude.Loop.{for_each-slot, for_each-common, for_each-fits}
use spi_nnaker.Platform.{Platform}
use spi_nnaker.Calc
use spi_nnaker.Network
use spi_nnaker.Sequential.Globals.{n_mfm, Globals}
use spi_nnaker.Sequential.Learning
use spi_nnaker.Parallel.Globals as Par
use spi_nnaker.Parallel.Activity
use spi_nnaker.Parallel.Population
use Rounds.{
  Fits, common, slot, node, mfm_round-IsSlotwise, value_round-IsSlotwise, action_round-IsSlotwise,
}

module _ (P : Platform) (b : Par.Globals P.Num) where
  open P use {Num}

  -- What the node of population `j` would hold, its other globals being those of `b`.
  abbrev pub seen : ℕ → Globals Num → Par.Globals Num
  seen j g = node P b (common g) (slot P j g)

  -- `mfm_` of the node is `mfm_` of the arrays, at its population.
  mfm-agrees :
      (j : ℕ) (g : Globals Num)
      → j < n_mfm
      → Fits g
      → seen j (Learning.mfm P g) ≡ Population.mfm P (seen j g)
  unfolding Learning.mfm Population.mfm
  mfm-agrees j g h f =
      let w = mfm_round-IsSlotwise P b in
      λ i.
        node P b (for_each-common w n_mfm 0 g i)
          (for_each-slot w n_mfm 0 j g (omega arith) f (omega arith) (omega arith) i)

  mfm-Fits : (g : Globals Num) → Fits g → Fits (Learning.mfm P g)
  unfolding Learning.mfm
  mfm-Fits g f = for_each-fits (mfm_round-IsSlotwise P b) n_mfm 0 g f

  -- So does `update_V`.
  update_v-agrees :
      (j : ℕ) (g : Globals Num)
      → j < n_mfm
      → Fits g
      → seen j (Learning.update_v P g) ≡ Population.update_v P (seen j g)
  unfolding Learning.update_v Population.update_v
  update_v-agrees j g h f =
      let w = value_round-IsSlotwise P b in
      λ i.
        node P b (for_each-common w n_mfm 0 g i)
          (for_each-slot w n_mfm 0 j g (omega arith) f (omega arith) (omega arith) i)

  -- And `update_A`, which draws the same noise in both versions.
  update_a-agrees :
      (j : ℕ) (g : Globals Num)
      → j < n_mfm
      → Fits g
      → seen j (Learning.update_a P g) ≡ Population.update_a P (seen j g)
  unfolding Learning.update_a Population.update_a Activity.noise Network.noise Calc.vector
  update_a-agrees j g h f =
      let w = action_round-IsSlotwise P in
      let (n', seed') = Network.noise P g.seed in
      let g' : Globals Num = record g { n = n'; seed = seed' } in
      λ i.
        node P b (for_each-common w n_mfm 0 g' i)
          (for_each-slot w n_mfm 0 j g' (omega arith) (drawn f) (omega arith) (omega arith) i)
    where
      drawn :
          Fits g
          → Fits (record g { n = (Network.noise P g.seed).0; seed = (Network.noise P g.seed).1 })
      drawn r = ground arith

  update_a-Fits : (g : Globals Num) → Fits g → Fits (Learning.update_a P g)
  unfolding Learning.update_a
  update_a-Fits g f =
      let (n', seed') = Network.noise P g.seed in
      let g' : Globals Num = record g { n = n'; seed = seed' } in
      for_each-fits (action_round-IsSlotwise P) n_mfm 0 g' (ground arith)

  -- The three learning steps in a row, at every population: the arrays of the sequential version hold
  -- what the node of that population computes on its own from the same ball, errors and random state.
  pub learning-agrees :
      (j : ℕ) (g : Globals Num)
      → j < n_mfm
      → Fits g
      → seen j (Learning.update_v P (Learning.update_a P (Learning.mfm P g)))
        ≡ Population.update_v P (Population.update_a P (Population.mfm P (seen j g)))
  learning-agrees j g h f =
      let f1 = mfm-Fits g f in
      let f2 = update_a-Fits (Learning.mfm P g) f1 in
      update_v-agrees j (Learning.update_a P (Learning.mfm P g)) h f2
      ∙ ap (Population.update_v P) (
          update_a-agrees j (Learning.mfm P g) h f1
          ∙ ap (Population.update_a P) (mfm-agrees j g h f))

-- ===== src/Agreement/Math.antt =====
-- spin1_math.c of the two versions side by side.
use spi_nnaker.Prelude.{◌≡◌, refl}
use spi_nnaker.Prelude.Int.{ℤ}
use spi_nnaker.Platform.{Platform}
use spi_nnaker.Calc
use spi_nnaker.Calc.{Vector2d}
use spi_nnaker.Sequential.Math

module _ (P : Platform) where
  open P use {Num}

  -- Both files have the same text; the parameters `r` stand for uninitialised memory.
  scalars-agree :
      (m n : ℤ) (s t u : Num) (v w : Vector2d Num)
      → (Math.min P s t ≡ Calc.min P s t)
        × (Math.max P s t ≡ Calc.max P s t)
        × (Math.range P s t u ≡ Calc.range P s t u)
        × (Math.f_abs P s ≡ Calc.f_abs P s)
        × (Math.norm P m n ≡ Calc.norm P m n)
        × (Math.v_norm P v ≡ Calc.v_norm P v)
        × (Math.dot P v w ≡ Calc.dot P v w)
  unfolding Math.min Math.max Math.range Math.f_abs Math.norm Math.v_norm Math.dot Calc.min Calc.max
      Calc.range Calc.f_abs Calc.norm Calc.v_norm Calc.dot
  scalars-agree m n s t u v w = (refl, refl, refl, refl, refl, refl, refl)

  vectors-agree :
      (r r' v w : Vector2d Num) (s t : Num)
      → (Math.empty_vector P r ≡ Calc.empty_vector P)
        × (Math.vector P r s t ≡ Calc.vector s t)
        × (Math.v_add P r v w ≡ Calc.v_add P v w)
        × (Math.v_sub P r v w ≡ Calc.v_sub P v w)
        × (Math.v_mul P r s v ≡ Calc.v_mul P s v)
        × (Math.normalize P r v ≡ Calc.normalize P v)
        × (Math.perp P r v ≡ Calc.perp P v)
        × (Math.project P r r' v w ≡ Calc.project P v w)
  unfolding Math.empty_vector Math.vector Math.v_add Math.v_sub Math.v_mul Math.normalize Math.perp
      Math.project Calc.empty_vector Calc.vector Calc.v_add Calc.v_sub Calc.v_mul Calc.normalize
      Calc.perp Calc.project Calc.dot
  vectors-agree r r' v w s t = (refl, refl, refl, refl, refl, refl, refl, refl)

-- ===== src/MeanField/Range.antt =====
-- The range of a population's rate.
use spi_nnaker.Prelude.{arith}
use spi_nnaker.Prelude.Int.{ℤ, pos, negsuc, ◌-ℤ◌, ◌*ℤ◌, ◌≤ℤ◌, shr_ℤ, +ℤ_parts, -ℤ_parts}
use spi_nnaker.MeanField.{fixed, if_fct, relax}

-- A rate lies between 0 and 100.
abbrev pub IsRate : ℤ → Type 0
IsRate v = (pos 0 ≤ℤ v) × (v ≤ℤ fixed 100)

-- The activation of any input is a rate.
pub if_fct-IsRate : (input : ℤ) → IsRate (if_fct input)
unfolding if_fct ◌-ℤ◌ ◌*ℤ◌
if_fct-IsRate input = ground arith

-- The relaxation with its difference taken.
step : (d : ℤ) → ℤ
step d = shr_ℤ (shr_ℤ (d *ℤ fixed 40) 8) 8

step-up : (d : ℤ) → pos 0 ≤ℤ d → (pos 0 ≤ℤ step d) × (step d ≤ℤ d)
unfolding step ◌*ℤ◌
step-up (pos n) h = ground arith
step-up (negsuc n) h = absurd (omega arith)

step-down : (d : ℤ) → d ≤ℤ pos 0 → (d ≤ℤ step d) × (step d ≤ℤ pos 0)
unfolding step ◌*ℤ◌
step-down (pos n) h = ground arith
step-down (negsuc n) h = ground arith

-- A rate below its target rises, and not beyond it.
pub relax-rises : (f target : ℤ) → f ≤ℤ target → (f ≤ℤ relax f target) × (relax f target ≤ℤ target)
unfolding relax step
relax-rises f target h =
    let d = target -ℤ f in
    let e = -ℤ_parts target f in omega (arith, +ℤ_parts f (step d), step-up d (omega arith))

-- A rate above its target falls, and not beyond it.
pub relax-falls : (f target : ℤ) → target ≤ℤ f → (target ≤ℤ relax f target) × (relax f target ≤ℤ f)
unfolding relax step
relax-falls f target h =
    let d = target -ℤ f in
    let e = -ℤ_parts target f in omega (arith, +ℤ_parts f (step d), step-down d (omega arith))

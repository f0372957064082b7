-- ===== src/Tests/Filter.antt =====
-- The position filter and spin1_math.c.
use spi_nnaker.Prelude.{
  ◌≡◌, refl, List, [], ◌∷◌, arith, replicate, length, leb, ◌&&◌, if◌then◌else◌, false,
}
use spi_nnaker.Prelude.Int.{pos, shr_ℤ, sum_ℤ, pos_part, ◌+ℤ◌, ◌-ℤ◌, ◌*ℤ◌}
use spi_nnaker.Calc
use spi_nnaker.Platform.Fixed.Root.{isqrt}
use spi_nnaker.Platform.Fixed.{fixed, fixed-Laws}
use spi_nnaker.Track.{start, compute_pos, store, accepts}
use spi_nnaker.Track.Mean.{Sample, AreCoordinates, run, taken, last_taken, xs_of, ys_of, run-mean}
use spi_nnaker.Track.Gate.{distance2, compute_pos-gate}

abbrev samples : List Sample
samples = record { x = pos 64; y = pos 32 } ∷ record { x = pos 96; y = pos 64 } ∷ []

run-mean_example :
    let used = taken fixed samples start in
    ((run fixed samples start).x_pos ≡ shr_ℤ (sum_ℤ (last_taken (xs_of used))) 4)
    × ((run fixed samples start).y_pos ≡ shr_ℤ (sum_ℤ (last_taken (ys_of used))) 4)
run-mean_example = run-mean fixed samples (omega arith, omega arith, (omega arith, omega arith, tt))

-- 16 samples in one corner.
abbrev corner : List Sample
corner = replicate 16 (record { x = pos 0; y = pos 0 })

corner-AreCoordinates : AreCoordinates corner
corner-AreCoordinates = ground arith

-- All of them are taken, the reported position is that corner, and the opposite corner is then refused.
corner_facts :
    (length (taken fixed corner start) ≡ 16)
    × ((run fixed corner start).x_pos ≡ pos 0)
    × ((run fixed corner start).y_pos ≡ pos 0)
unfolding accepts compute_pos store ◌+ℤ◌ ◌-ℤ◌
corner_facts = (refl, refl, refl)

corner_refuses : accepts fixed (pos 127) (pos 127) (run fixed corner start) ≡ false
unfolding accepts compute_pos store ◌+ℤ◌ ◌-ℤ◌ ◌*ℤ◌ Calc.norm isqrt
corner_refuses = refl

compute_pos-gate_example :
    let t = run fixed corner start in
    let distance = distance2 (pos_part t.x_pos) (pos_part t.y_pos) 127 127 in
    compute_pos fixed (pos 127) (pos 127) t ≡ (
      if leb 16 (length (taken fixed corner start)) && leb 10000 distance
      then t
      else store (pos 127) (pos 127) t)
compute_pos-gate_example =
    compute_pos-gate fixed fixed-Laws corner 127 127 corner-AreCoordinates (omega arith)
      (omega arith)

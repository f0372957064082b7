-- ===== src/Tests/Plots.antt =====
-- The sine and the plotted track.
use native.Mathlib.Nat.{mul-le-mul, le_refl}
use spi_nnaker.Prelude.{
  ℕ, ◌+◌, ◌*◌, ◌≤◌, ◌%◌, ◌<◌, ◌≡◌, ◌⊎◌, refl, ap, ◌∙◌, suc, false, List, [], ◌∷◌, arith,
}
use spi_nnaker.Prelude.Int.{ℤ, pos, negsuc, ◌+ℤ◌, ◌-ℤ◌, ◌*ℤ◌, ◌≤ℤ◌, sub_ℕ, sum_ℤ}
use spi_nnaker.Platform.{IsWithin}
use spi_nnaker.Platform.Fixed.{fixed, scale, mul-pos, quot-neg}
use spi_nnaker.Sinus
use spi_nnaker.Sinus.Wave.{WaveLaws, IsWaveStep, sine_coordinate, update_wave}
use spi_nnaker.PlotTracker.{at_rest, to_signed, inv_tick_time}
use spi_nnaker.PlotTracker.Agrees.{as_tracker, store_all, compute_pos_all, store_all-as_tracker}
use spi_nnaker.PlotTracker.Speeds.{
  Call, sample, speed, acceleration, run, speeds, accelerations, sums_telescope,
}
use spi_nnaker.PlotTracker.Bounds.{IsInRange, run-IsInRange}

angle-IsWithin :
    (n : ℕ)
    → n < 360
    → IsWithin fixed (fixed.decimal 0 0) (fixed.decimal 7 0) (
        fixed.◌⊘◌
          (fixed.◌⊗◌ (fixed.◌⊗◌ (fixed.decimal 2 0) (fixed.decimal 31415 4)) (fixed.of_int (pos n)))
          (fixed.decimal 360 0))
unfolding ◌*ℤ◌
angle-IsWithin n h = record { number = ground arith; above = ground arith; below = ground arith }

mul-pos-negsuc : (a n : ℕ) → pos a *ℤ negsuc n ≡ sub_ℕ 0 (a * suc n)
unfolding ◌*ℤ◌
mul-pos-negsuc a n = ground arith

units : ℕ → ℤ → ℤ
units m x = fixed.◌⊗◌ (fixed.of_int (pos m)) x

units-pos : (m n : ℕ) → units m (pos n) ≡ pos (m * n)
unfolding units
units-pos m n = rw (mul-pos m scale, mul-pos (m * scale) n) (ap pos (omega arith))

units-negsuc : (m n : ℕ) → units m (negsuc n) ≡ sub_ℕ 0 (m * suc n)
unfolding units
units-negsuc m n =
    rw (mul-pos m scale, mul-pos-negsuc (m * scale) n)
      (quot-neg (m * scale * suc n) scale ∙ ap (sub_ℕ 0) (omega arith))

-- A product of at most `m` units, moved by `c`.
moved :
    (m c : ℕ) (v : ℤ)
    → m ≤ c
    → pos 0 ≤ℤ v +ℤ pos (m * scale)
    → v ≤ℤ pos (m * scale)
    → let r = fixed.to_int (v +ℤ pos (c * scale)) in (pos c ≤ℤ r +ℤ pos m) × (r ≤ℤ pos (c + m))
unfolding ◌+ℤ◌
moved m c (pos n) h lo hi = ground arith
moved m c (negsuc n) h lo hi = ground arith

product_bounds : (k b : ℕ) → k ≤ b → (pos 0 ≤ℤ pos k +ℤ pos b) × (pos k ≤ℤ pos b)
unfolding ◌+ℤ◌
product_bounds k b h = ground arith

negated_bounds : (k b : ℕ) → k ≤ b → (pos 0 ≤ℤ sub_ℕ 0 k +ℤ pos b) × (sub_ℕ 0 k ≤ℤ pos b)
unfolding ◌+ℤ◌
negated_bounds k b h = ground arith

units_bounds :
    (m : ℕ) (x : ℤ)
    → IsWithin fixed (pos 0 -ℤ pos scale) (pos scale) x
    → (pos 0 ≤ℤ units m x +ℤ pos (m * scale)) × (units m x ≤ℤ pos (m * scale))
unfolding ◌-ℤ◌ ◌+ℤ◌
units_bounds m (pos n) w =
    let h : n ≤ scale = ground arith in
    rw (units-pos m n) (product_bounds (m * n) (m * scale) (mul-le-mul (le_refl m) h))
units_bounds m (negsuc n) w =
    let h : suc n ≤ scale = ground arith in
    rw (units-negsuc m n) (negated_bounds (m * suc n) (m * scale) (mul-le-mul (le_refl m) h))

fixed-WaveLaws : WaveLaws fixed
unfolding units ◌-ℤ◌
fixed-WaveLaws = record {
  angle = angle-IsWithin;
  sin_bounds = λ x w. record { number = refl; above = refl; below = refl };
  to_int_moved = λ x m c h k w.
      let (lo, hi) = units_bounds m x w in rw (mul-pos c scale) (moved m c (units m x) h lo hi);
}

update_wave_example :
    (((90 % 2 ≡ 0) × IsWaveStep (sine_coordinate fixed 90) (Sinus.update fixed 90))
      ⊎ ((90 % 2 ≡ 1) × (Sinus.update fixed 90 ≡ [])))
    × (Sinus.update fixed 450 ≡ Sinus.update fixed 90)
update_wave_example = update_wave fixed fixed-WaveLaws 90 (omega arith)

at_rest-IsInRange : IsInRange at_rest
unfolding ◌+ℤ◌
at_rest-IsInRange = record {
  filter = record {
    length_x = refl;
    length_y = refl;
    samples_x = omega arith;
    samples_y = omega arith;
    index_in = omega arith;
    total_x = refl;
    total_y = refl;
    mean_x = refl;
    mean_y = refl;
  };
  old_x = omega arith;
  old_y = omega arith;
  speed_x = omega arith;
  speed_y = omega arith;
  old_speed_x = omega arith;
  old_speed_y = omega arith;
  acceleration_x = omega arith;
  acceleration_y = omega arith;
}

abbrev samples : List (ℕ × ℕ)
samples = (64, 32) ∷ (96, 64) ∷ []

store_all-as_tracker_example :
    let t = store_all samples (as_tracker false at_rest) in
    t ≡ as_tracker t.pos_computed (compute_pos_all samples at_rest)
store_all-as_tracker_example =
    store_all-as_tracker samples false at_rest (omega arith) at_rest-IsInRange.filter

abbrev calls : List Call
calls = sample 64 32 ∷ speed ∷ acceleration ∷ sample 96 64 ∷ speed ∷ acceleration ∷ []

run-IsInRange_example : IsInRange (run calls at_rest)
run-IsInRange_example = run-IsInRange calls (omega arith) at_rest-IsInRange

sums_telescope_example :
    let q = run calls at_rest in
    (sum_ℤ (speeds (λ r. r.x_speed) calls at_rest)
      ≡ (to_signed q.old_x_pos -ℤ to_signed at_rest.old_x_pos) *ℤ inv_tick_time)
    × (sum_ℤ (speeds (λ r. r.y_speed) calls at_rest)
        ≡ (to_signed q.old_y_pos -ℤ to_signed at_rest.old_y_pos) *ℤ inv_tick_time)
    × (sum_ℤ (accelerations (λ r. r.x_acceleration) calls at_rest)
        ≡ (q.old_x_speed -ℤ at_rest.old_x_speed) *ℤ inv_tick_time)
    × (sum_ℤ (accelerations (λ r. r.y_acceleration) calls at_rest)
        ≡ (q.old_y_speed -ℤ at_rest.old_y_speed) *ℤ inv_tick_time)
sums_telescope_example = sums_telescope calls at_rest

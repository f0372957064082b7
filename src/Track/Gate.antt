-- ===== src/Track/Gate.antt =====
-- The test before a sample is stored, in whole numbers, and the warm-up that it waits for.
use native.Mathlib.Nat.{mul-le-mul}
use spi_nnaker.Prelude.{
  ℕ, ◌+◌, ◌-◌, ◌*◌, ◌^◌, ◌≤◌, ◌<◌, ◌≡◌, not, ◌||◌, arith, ltb, if◌then◌else◌, leb, ◌&&◌, Bool, List,
  length, refl, ap, ◌∙◌,
}
use spi_nnaker.Prelude.Int.{ℤ, pos, negsuc, pos_part, neg_part, ◌+ℤ◌, ◌-ℤ◌, ◌*ℤ◌}
use spi_nnaker.Platform.{Platform, Laws}
use spi_nnaker.Calc
use spi_nnaker.Track.{Tracker, start, store, accepts, compute_pos}
use spi_nnaker.Track.Valid.{IsCoordinate, IsValid-bounds, start-IsValid}
use spi_nnaker.Track.Mean.{Sample, AreCoordinates, run, taken, run-IsValid}
use spi_nnaker.Track.Warmup.{pos_computed-run}

abbrev pub gap : ℕ → ℕ → ℕ
gap a b = (a - b) + (b - a)

-- The square of the distance of two points with whole coordinates.
abbrev pub distance2 : ℕ → ℕ → ℕ → ℕ → ℕ
distance2 a b c d = gap a c * gap a c + gap b d * gap b d

size : ℤ → ℕ
size v = pos_part v + neg_part v

square : (v : ℤ) → v *ℤ v ≡ pos (size v * size v)
unfolding ◌*ℤ◌ size
square (pos n) = ground arith
square (negsuc n) = ground arith

size_diff : (a b : ℕ) → size (pos a -ℤ pos b) ≡ gap a b
unfolding ◌-ℤ◌ size
size_diff a b = ground arith

sum-pos : (a b : ℕ) → pos a +ℤ pos b ≡ pos (a + b)
unfolding ◌+ℤ◌
sum-pos a b = ground arith

-- The argument of `sqrt` in `norm`.
sum_of_squares :
    (a b c d : ℕ)
    → (pos a -ℤ pos c) *ℤ (pos a -ℤ pos c) +ℤ (pos b -ℤ pos d) *ℤ (pos b -ℤ pos d)
      ≡ pos (distance2 a b c d)
sum_of_squares a b c d =
    rw (square (pos a -ℤ pos c), square (pos b -ℤ pos d), size_diff a c, size_diff b d, sum-pos)

square-le : (n : ℕ) → n ≤ 127 → n * n ≤ 127 * 127
square-le n h = mul-le-mul h h

distance2_small : (a b c d : ℕ) → a ≤ 127 → b ≤ 127 → c ≤ 127 → d ≤ 127 → distance2 a b c d < 2 ^ 24
distance2_small a b c d ha hb hc hd =
    omega (arith, square-le (gap a c) (omega arith), square-le (gap b d) (omega arith))

coordinate : (v : ℤ) → IsCoordinate v → (v ≡ pos (pos_part v)) × (pos_part v ≤ 127)
coordinate (pos n) h = (refl, omega arith)
coordinate (negsuc n) h = absurd (omega arith)

-- The test of the code, turned round.
swap {ℓ} :
    {A : Type ℓ} (full : Bool) (d m : ℕ) (a b : A)
    → (if not full || ltb d m then a else b) ≡ (if full && leb m d then b else a)
swap full d m a b = ground arith

module _ (P : Platform) (laws : Laws P) where
  norm_test :
      (a b c d : ℕ)
      → a ≤ 127
      → b ≤ 127
      → c ≤ 127
      → d ≤ 127
      → P.less (Calc.norm P (pos a -ℤ pos c) (pos b -ℤ pos d)) (P.of_int (pos 100))
        ≡ ltb (distance2 a b c d) 10000
  unfolding Calc.norm
  norm_test a b c d ha hb hc hd =
      rw (Calc.norm, sum_of_squares a b c d)
        (laws.less_sqrt (distance2 a b c d) 100 (distance2_small a b c d ha hb hc hd) (omega arith))

  compute_pos_cases :
      (x y px py : ℕ) (t : Tracker)
      → x ≤ 127
      → y ≤ 127
      → px ≤ 127
      → py ≤ 127
      → t.x_pos ≡ pos px
      → t.y_pos ≡ pos py
      → compute_pos P (pos x) (pos y) t ≡ (
          if not t.pos_computed || ltb (distance2 px py x y) 10000
          then store (pos x) (pos y) t
          else t)
  unfolding compute_pos accepts
  compute_pos_cases x y px py t hx hy hpx hpy ex ey =
      simp (ex, ey, norm_test px py x y hpx hpy hx hy)

  -- After any samples of the camera since the start, the next one is refused exactly when 16 have been
  -- taken and it lies 100 or more from the reported position; then nothing changes.
  pub compute_pos-gate :
      (samples : List Sample) (x y : ℕ)
      → AreCoordinates samples
      → x ≤ 127
      → y ≤ 127
      → let t = run P samples start in
        let distance = distance2 (pos_part t.x_pos) (pos_part t.y_pos) x y in
        compute_pos P (pos x) (pos y) t ≡ (
          if leb 16 (length (taken P samples start)) && leb 10000 distance
          then t
          else store (pos x) (pos y) t)
  compute_pos-gate samples x y h hx hy =
      let t = run P samples start in
      let b = IsValid-bounds (run-IsValid P samples h start-IsValid) in
      let ex = coordinate t.x_pos b.0 in
      let ey = coordinate t.y_pos b.1 in
      let same =
        compute_pos_cases x y (pos_part t.x_pos) (pos_part t.y_pos) t hx hy ex.1 ey.1 ex.0 ey.0 in
      same
      ∙ ap
          (λ full.
            if not full || ltb (distance2 (pos_part t.x_pos) (pos_part t.y_pos) x y) 10000
            then store (pos x) (pos y) t
            else t)
          (pos_computed-run P samples)
      ∙ swap (leb 16 (length (taken P samples start)))
          (distance2 (pos_part t.x_pos) (pos_part t.y_pos) x y) 10000 _ _

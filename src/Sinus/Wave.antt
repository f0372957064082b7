-- ===== src/Sinus/Wave.antt =====
-- What the motors are told.
use spi_nnaker.Prelude.{
  ℕ, ◌+◌, ◌*◌, ◌%◌, ◌^◌, ◌≤◌, ◌<◌, ◌≡◌, ◌⊎◌, inl, inr, refl, ap, List, [], ◌∷◌, arith,
}
use spi_nnaker.Prelude.Int.{ℤ, pos, negsuc, ◌+ℤ◌, ◌≤ℤ◌, +ℤ_parts}
use spi_nnaker.Platform.{Platform, IsWithin}
use spi_nnaker.Device.{Effect, Line, send_mc, motors_key}
use spi_nnaker.Device.Motor.{command_x, command_y, motor_payload}
use spi_nnaker.Sinus.{rad, coord, move_to, update}

-- What the wave uses of the target. `sin` of math.h is between -1 and 1 on a number that is not infinite;
-- the rest holds of IEEE 754 arithmetic, which rounds without changing the order.
pub record WaveLaws (P : Platform) : Type 0 where
  -- an angle of at most a turn
  pub angle :
      (n : ℕ)
      → n < 360
      → IsWithin P (P.decimal 0 0) (P.decimal 7 0) (
          P.single (
            P.◌⊘◌
              (P.◌⊗◌ (P.◌⊗◌ (P.decimal 2 0) (P.decimal 31415 4)) (P.of_int (pos n)))
              (P.decimal 360 0)))
  pub sin_bounds :
      (x : P.Num)
      → IsWithin P (P.decimal 0 0) (P.decimal 7 0) x
      → IsWithin P (P.neg (P.decimal 1 0)) (P.decimal 1 0) (P.single (P.sin x))
  -- a product with a whole number, moved by a larger one and truncated
  pub to_int_moved :
      (x : P.Num) (m c : ℕ)
      → m ≤ c
      → c < 2 ^ 23
      → IsWithin P (P.neg (P.decimal 1 0)) (P.decimal 1 0) x
      → let r =
          P.to_int (P.single (P.◌⊕◌ (P.single (P.◌⊗◌ (P.of_int (pos m)) x)) (P.of_int (pos c)))) in
        (pos c ≤ℤ r +ℤ pos m) × (r ≤ℤ pos (c + m))

parity : (t : ℕ) → (t % 2 ≡ 0) ⊎ (t % 2 ≡ 1)
parity t = omega arith

-- One packet to the motors, x at 2000 and y at the coordinate, which lies between 1500 and 2500, and a line
-- with the coordinate.
pub record IsWaveStep (coordinate : ℤ) (effects : List Effect) : Type 0 where
  pub payload : ℕ
  pub sent : effects ≡ send_mc motors_key payload ∷ Effect.print (Line.coord_is coordinate) ∷ []
  pub x_fixed : command_x payload ≡ 2000
  pub y_follows : pos (command_y payload) ≡ coordinate
  pub y_low : 1500 ≤ command_y payload
  pub y_high : command_y payload ≤ 2500

move_to-IsWaveStep : (c : ℤ) → pos 2000 ≤ℤ c +ℤ pos 500 → c ≤ℤ pos 2500 → IsWaveStep c (move_to c)
unfolding move_to command_x command_y
move_to-IsWaveStep (pos n) lo hi =
    let low : 1500 ≤ n = omega (arith, +ℤ_parts (pos n) (pos 500)) in
    record {
      payload = 2000 * 2 ^ 16 + n;
      sent = ground (arith, motor_payload 2000 n (omega arith) (omega arith));
      x_fixed = omega arith;
      y_follows = ap pos (omega arith);
      y_low = omega arith;
      y_high = omega arith;
    }
move_to-IsWaveStep (negsuc n) lo hi = absurd (omega (arith, +ℤ_parts (negsuc n) (pos 500)))

module _ (P : Platform) where
  open P use {◌⊕◌, ◌⊗◌, ◌⊘◌, sin, single, decimal, of_int, to_int}

  infixl 65 ◌⊕◌
  infixl 70 ◌⊗◌ ◌⊘◌
  -- The sine of the time, scaled and moved: an angle in degrees, with 3.1415 for pi.
  abbrev pub sine_coordinate : ℕ → ℤ
  sine_coordinate t =
      let degrees = of_int (pos (t % 360)) in
      let angle = single (decimal 2 0 ⊗ decimal 31415 4 ⊗ degrees ⊘ decimal 360 0) in
      to_int (single (single (of_int (pos 500) ⊗ single (sin angle)) ⊕ of_int (pos 2000)))

module _ (P : Platform) (laws : WaveLaws P) where
  sine_bounds :
      (t : ℕ) → (pos 2000 ≤ℤ sine_coordinate P t +ℤ pos 500) × (sine_coordinate P t ≤ℤ pos 2500)
  sine_bounds t =
      laws.to_int_moved _ 500 2000 (omega arith) (omega arith)
        (laws.sin_bounds _ (laws.angle (t % 360) (omega arith)))

  update-even : (t : ℕ) → t < 2 ^ 32 → t % 2 ≡ 0 → update P t ≡ move_to (sine_coordinate P t)
  unfolding update coord rad
  update-even t small h = let same : t % 2 ^ 32 ≡ t = omega arith in rw (same, h) refl

  update-odd : (t : ℕ) → t % 2 ≡ 1 → update P t ≡ []
  unfolding update
  update-odd t h = let odd : t % 2 ^ 32 % 2 ≡ 1 = omega arith in rw odd refl

  rad-repeats : (t : ℕ) → rad P (t + 360) ≡ rad P t
  unfolding rad
  rad-repeats t = let angle : (t + 360) % 360 ≡ t % 360 = omega arith in rw (angle, rad) refl

  update-repeats : (t : ℕ) → t + 360 < 2 ^ 32 → update P (t + 360) ≡ update P t
  unfolding update
  update-repeats t small =
      let before : t % 2 ^ 32 ≡ t = omega arith in
      let after : (t + 360) % 2 ^ 32 ≡ t + 360 = omega arith in
      let even : (t + 360) % 2 ≡ t % 2 = omega arith in rw (before, after, even, rad-repeats t) refl

  -- Up to 360 ticks before the `uint` of the time wraps: at an even time t one packet is sent, whose y is
  -- 500 times the sine of t modulo 360 degrees, plus 2000, rounded as the code does, and lies between 1500
  -- and 2500, and whose x is 2000; the line printed has the same number. At an odd time nothing is sent. The
  -- commands repeat after 360 ticks.
  pub update_wave :
      (t : ℕ)
      → t + 360 < 2 ^ 32
      → (((t % 2 ≡ 0) × IsWaveStep (sine_coordinate P t) (update P t))
          ⊎ ((t % 2 ≡ 1) × (update P t ≡ [])))
        × (update P (t + 360) ≡ update P t)
  update_wave t small =
      let (lo, hi) = sine_bounds t in
      let again = update-repeats t small in
      elim (parity t) [
        | inl even ↦
            let step = move_to-IsWaveStep (sine_coordinate P t) lo hi in
            (inl (even, rw (update-even t (omega arith) even) step), again)
        | inr odd ↦ (inr (odd, update-odd t odd), again)
      ]

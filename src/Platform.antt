-- ===== src/Platform.antt =====
-- What the program takes from its target and does not implement: the floating-point arithmetic of
-- the compiler, `sqrt`, `cos` and `sin` of math.h, and `rand` and `srand` of stdlib.h.
--
-- `Num` holds the values of `double`. A `float` is a `Num` that `single` has rounded, so a `float`
-- operation is the `double` operation rounded once more: for + - * / and sqrt the two roundings
-- give what one rounding gives, since a double has more than twice the bits of a float.
pub mod Fixed
use spi_nnaker.Prelude.{ℕ, ◌*◌, ◌^◌, ◌≤◌, ◌<◌, ◌≡◌, Bool, true, false, ltb}
use spi_nnaker.Prelude.Int.{ℤ, pos, ◌+ℤ◌, ◌≤ℤ◌}

pub record Platform : Type 1 where
  pub Num : Type 0
  -- the arithmetic of `double`
  pub ◌⊕◌ : Num → Num → Num
  pub ◌⊖◌ : Num → Num → Num
  pub ◌⊗◌ : Num → Num → Num
  pub ◌⊘◌ : Num → Num → Num
  pub neg : Num → Num
  -- the value of type `float` nearest to a `double`
  pub single : Num → Num
  -- the comparisons `<` and `==`, false at a NaN
  pub less : Num → Num → Bool
  pub same : Num → Num → Bool
  -- a decimal constant, `decimal m k` for m / 10^k, and the conversions from and to `int`
  pub decimal : ℕ → ℕ → Num
  pub of_int : ℤ → Num
  pub to_int : Num → ℤ
  -- math.h
  pub sqrt : Num → Num
  pub cos : Num → Num
  pub sin : Num → Num
  -- stdlib.h: a number and the next state of the generator, the state after a seed, RAND_MAX
  pub rand : ℕ → ℕ × ℕ
  pub srand : ℕ → ℕ
  pub rand_max : ℕ

-- `v` is a number, and neither below `lo` nor above `hi`.
pub record IsWithin (P : Platform) (lo hi v : P.Num) : Type 0 where
  pub number : P.same v v ≡ true
  pub above : P.less v lo ≡ false
  pub below : P.less hi v ≡ false

-- What the theorems use of the target. Every law holds of IEEE 754 arithmetic, NaN included.
pub record Laws (P : Platform) : Type 0 where
  -- `<` on floating-point numbers, and how a change of sign turns it round
  pub less_asymm : (x y : P.Num) → P.less x y ≡ true → P.less y x ≡ false
  pub less_trans : (x y z : P.Num) → P.less x y ≡ true → P.less y z ≡ true → P.less x z ≡ true
  pub less_neg : (x y : P.Num) → P.less (P.neg x) (P.neg y) ≡ P.less y x
  pub neg_neg : (x : P.Num) → P.neg (P.neg x) ≡ x
  pub same_neg : (x : P.Num) → P.same (P.neg x) (P.neg x) ≡ P.same x x
  -- minus zero compares as zero
  pub less_neg_zero : (x : P.Num) → P.less x (P.neg (P.decimal 0 0)) ≡ P.less x (P.decimal 0 0)
  -- whole constants
  pub less_decimal :
      (a b : ℕ) → a < 2 ^ 24 → b < 2 ^ 24 → P.less (P.decimal a 0) (P.decimal b 0) ≡ ltb a b
  pub same_decimal : (a : ℕ) → P.same (P.decimal a 0) (P.decimal a 0) ≡ true
  -- a product with a whole number, truncated: rounding keeps the order, and is exact at the ends
  pub to_int_scaled :
      (x : P.Num) (m : ℕ)
      → m < 2 ^ 24
      → IsWithin P (P.decimal 0 0) (P.decimal 1 0) x
      → (pos 0 ≤ℤ P.to_int (P.◌⊗◌ x (P.decimal m 0)))
        × (P.to_int (P.◌⊗◌ x (P.decimal m 0)) ≤ℤ pos m)
  pub to_int_single :
      (x : P.Num) (m : ℕ)
      → m < 2 ^ 24
      → IsWithin P (P.neg (P.decimal 1 0)) (P.decimal 1 0) x
      → let r = P.to_int (P.single (P.◌⊗◌ x (P.of_int (pos m)))) in
        (pos 0 ≤ℤ r +ℤ pos m) × (r ≤ℤ pos m)
  -- the square root of a whole number of at most 24 bits, rounded, against a small whole number
  pub less_sqrt :
      (n m : ℕ)
      → n < 2 ^ 24
      → m ≤ 1000
      → P.less (P.single (P.sqrt (P.of_int (pos n)))) (P.of_int (pos m)) ≡ ltb n (m * m)

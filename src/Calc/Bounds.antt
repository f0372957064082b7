-- ===== src/Calc/Bounds.antt =====
-- The bounds of `range` and `f_abs` of spin1_math.c.
use spi_nnaker.Prelude.{◌≡◌, sym, ◌∙◌, true, false, arith}
use spi_nnaker.Platform.{Platform, IsWithin, Laws}
use spi_nnaker.Calc.{range, f_abs}

module _ (P : Platform) (laws : Laws P) where
  open P use {Num, neg, less, same, decimal}

  -- `range` maps every number into the interval.
  range_bounds :
      (v lo hi : Num)
      → same v v ≡ true
      → same lo lo ≡ true
      → same hi hi ≡ true
      → less lo hi ≡ true
      → IsWithin P lo hi (range P v lo hi)
  unfolding range
  range_bounds v lo hi nv nlo nhi order =
      ground (arith, laws.less_asymm lo hi, irrefl lo, irrefl hi)
    where
      irrefl : (x : Num) → less x x ≡ false
      irrefl x = ground (arith, laws.less_asymm x x)

  zero-lt-one : less (decimal 0 0) (decimal 1 0) ≡ true
  zero-lt-one = laws.less_decimal 0 1 (omega arith) (omega arith)

  minus_one-lt-one : less (neg (decimal 1 0)) (decimal 1 0) ≡ true
  minus_one-lt-one =
      laws.less_trans (neg (decimal 1 0)) (decimal 0 0) (decimal 1 0)
        (sym (laws.less_neg_zero (neg (decimal 1 0)))
          ∙ laws.less_neg (decimal 1 0) (decimal 0 0)
          ∙ zero-lt-one)
        zero-lt-one

  -- What `range(v, -1.0, 1.0)` gives lies between -1 and 1 as soon as it is a number.
  pub clamped-IsWithin :
      (v : Num)
      → let r = range P v (neg (decimal 1 0)) (decimal 1 0) in
        same r r ≡ true → IsWithin P (neg (decimal 1 0)) (decimal 1 0) r
  unfolding range
  clamped-IsWithin v h =
      let order = minus_one-lt-one in
      ground (
        arith,
        laws.less_asymm (neg (decimal 1 0)) (decimal 1 0),
        laws.less_asymm (decimal 1 0) (decimal 1 0),
        laws.less_asymm (neg (decimal 1 0)) (neg (decimal 1 0)),
      )

  -- Zero lies between -1 and 1.
  pub zero-IsWithin : IsWithin P (neg (decimal 1 0)) (decimal 1 0) (decimal 0 0)
  zero-IsWithin = record {
    number = laws.same_decimal 0;
    above = laws.less_asymm (neg (decimal 1 0)) (decimal 0 0) (
        sym (laws.less_neg_zero (neg (decimal 1 0)))
        ∙ laws.less_neg (decimal 1 0) (decimal 0 0)
        ∙ zero-lt-one);
    below = laws.less_asymm (decimal 0 0) (decimal 1 0) zero-lt-one;
  }

  -- `range(v, -1.0, 1.0)` lies between -1 and 1.
  pub clamp-IsWithin :
      (v : Num)
      → same v v ≡ true
      → IsWithin P (neg (decimal 1 0)) (decimal 1 0) (range P v (neg (decimal 1 0)) (decimal 1 0))
  clamp-IsWithin v nv =
      range_bounds v (neg (decimal 1 0)) (decimal 1 0) nv
        (laws.same_neg (decimal 1 0) ∙ laws.same_decimal 1) (laws.same_decimal 1) minus_one-lt-one

  -- The absolute value is not negative, and keeps the interval from -1 to 1.
  pub f_abs-IsWithin :
      (v : Num)
      → IsWithin P (neg (decimal 1 0)) (decimal 1 0) v
      → IsWithin P (decimal 0 0) (decimal 1 0) (f_abs P v)
  unfolding f_abs
  f_abs-IsWithin v w = ground (
    arith,
    laws.less_asymm v (decimal 0 0),
    laws.same_neg v,
    laws.less_neg v (decimal 0 0),
    laws.less_neg_zero (neg v),
    laws.less_neg (neg (decimal 1 0)) v,
    laws.neg_neg (decimal 1 0),
  )

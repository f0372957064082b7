-- ===== src/Platform/Fixed.antt =====
-- A platform of fixed-point numbers with four decimal places, truncated, which fills the laws.
pub mod Root
use native.Mathlib.Nat.{mul-le-mul, le_refl, zero-div, div-one}
use spi_nnaker.Prelude.{
  ℕ, zero, suc, ◌+◌, ◌-◌, ◌*◌, ◌/◌, ◌%◌, ◌^◌, ◌≤◌, ◌≡◌, ap, ◌∙◌, arith, ltb, ◌==◌, ◌&&◌,
}
use spi_nnaker.Prelude.Int.{
  ℤ, pos, negsuc, pos_part, neg_part, sub_ℕ, ◌+ℤ◌, ◌-ℤ◌, ◌*ℤ◌, ◌≤ℤ◌, ltb_ℤ,
}
use spi_nnaker.Platform.{Platform, IsWithin, Laws}
use Root.{isqrt, isqrt-lt_iff}

-- Division of an integer by a number, towards zero.
abbrev pub quot : ℤ → ℕ → ℤ
quot (pos n) d = pos (n / d)
quot (negsuc n) d = sub_ℕ 0 (suc n / d)

abbrev pub scale : ℕ
scale = 10_000

abbrev times : ℤ → ℤ → ℤ
times a b = quot (a *ℤ b) scale

abbrev over : ℤ → ℤ → ℤ
over a (pos n) = quot (a *ℤ pos scale) n
over a (negsuc n) = quot (negsuc 0 *ℤ (a *ℤ pos scale)) (suc n)

abbrev root : ℤ → ℤ
root (pos n) = pos (isqrt (n * scale))
root (negsuc n) = pos 0

abbrev next_random : ℕ → ℕ × ℕ
next_random s = let r = (s * 1_103_515_245 + 12_345) % 2 ^ 31 in (r, r)

abbrev pub fixed : Platform
fixed = record {
  Num = ℤ;
  ◌⊕◌ = ◌+ℤ◌;
  ◌⊖◌ = ◌-ℤ◌;
  ◌⊗◌ = times;
  ◌⊘◌ = over;
  neg = λ a. pos 0 -ℤ a;
  single = λ a. a;
  less = ltb_ℤ;
  same = λ a b. pos_part a == pos_part b && neg_part a == neg_part b;
  decimal = λ m k. pos (m * scale / 10 ^ k);
  of_int = λ z. z *ℤ pos scale;
  to_int = λ a. quot a scale;
  sqrt = root;
  cos = λ _. pos scale;
  sin = λ _. pos 0;
  rand = next_random;
  srand = λ s. s;
  rand_max = 2 ^ 31 - 1;
}

pub mul-pos : (a b : ℕ) → pos a *ℤ pos b ≡ pos (a * b)
unfolding ◌*ℤ◌
mul-pos a b = ground arith

mul-negsuc : (a b : ℕ) → negsuc a *ℤ pos b ≡ sub_ℕ 0 (suc a * b)
unfolding ◌*ℤ◌
mul-negsuc a b = ground arith

pub quot-neg : (k d : ℕ) → quot (sub_ℕ 0 k) d ≡ sub_ℕ 0 (k / d)
quot-neg zero d = ground (arith, zero-div d)
quot-neg (suc k) d = ground arith

-- A product with a whole number, truncated.
to_int_pos : (n m : ℕ) → quot (times (pos n) (pos (m * scale))) scale ≡ pos (n * m / scale)
to_int_pos n m = rw (mul-pos n (m * scale)) (ap pos (omega arith))

to_int_neg :
    (n m : ℕ) → quot (times (negsuc n) (pos (m * scale))) scale ≡ sub_ℕ 0 (suc n * m / scale)
to_int_neg n m =
    rw (mul-negsuc n (m * scale), quot-neg (suc n * (m * scale)) scale)
      (quot-neg (suc n * (m * scale) / scale) scale ∙ ap (sub_ℕ 0) (omega arith))

share-le : (n m : ℕ) → n ≤ scale → n * m / scale ≤ m
share-le n m h = omega (arith, mul-le-mul h (le_refl m))

negative_bounds : (k m : ℕ) → k ≤ m → (pos 0 ≤ℤ sub_ℕ 0 k +ℤ pos m) × (sub_ℕ 0 k ≤ℤ pos m)
unfolding ◌+ℤ◌
negative_bounds k m h = ground arith

scaled_bounds :
    (x : ℤ) (m : ℕ)
    → IsWithin fixed (pos 0) (pos scale) x
    → let r = quot (times x (pos (m * scale))) scale in (pos 0 ≤ℤ r) × (r ≤ℤ pos m)
scaled_bounds (pos n) m w =
    let h : n ≤ scale = ground arith in rw (to_int_pos n m) (omega (arith, share-le n m h))
scaled_bounds (negsuc n) m w = absurd (ground arith)

single_bounds :
    (x : ℤ) (m : ℕ)
    → IsWithin fixed (pos 0 -ℤ pos scale) (pos scale) x
    → let r = quot (times x (pos m *ℤ pos scale)) scale in (pos 0 ≤ℤ r +ℤ pos m) × (r ≤ℤ pos m)
unfolding ◌-ℤ◌ ◌+ℤ◌
single_bounds (pos n) m w =
    let h : n ≤ scale = ground arith in
    rw (mul-pos m scale, to_int_pos n m) (ground (arith, share-le n m h))
single_bounds (negsuc n) m w =
    let h : suc n ≤ scale = ground arith in
    rw (mul-pos m scale, to_int_neg n m)
      (negative_bounds (suc n * m / scale) m (share-le (suc n) m h))

root_test : (n m : ℕ) → ltb_ℤ (root (pos n *ℤ pos scale)) (pos m *ℤ pos scale) ≡ ltb n (m * m)
root_test n m =
    rw (mul-pos n scale, mul-pos m scale)
      (ground (arith, isqrt-lt_iff (n * scale * scale) (m * scale)))

pub fixed-Laws : Laws fixed
unfolding ◌-ℤ◌ ◌*ℤ◌ ◌+ℤ◌
fixed-Laws = record {
  less_asymm = λ x y h. ground arith;
  less_trans = λ x y z h k. ground arith;
  less_neg = λ x y. ground arith;
  neg_neg = λ x. ground arith;
  same_neg = λ x. ground arith;
  less_neg_zero = λ x. ground arith;
  less_decimal = λ a b ha hb. ground arith;
  same_decimal = λ a. ground arith;
  to_int_scaled = λ x m h w. rw (div-one (m * scale)) (scaled_bounds x m w);
  to_int_single = λ x m h w. single_bounds x m w;
  less_sqrt = λ n m h k. root_test n m;
}

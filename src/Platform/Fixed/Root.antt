-- ===== src/Platform/Fixed/Root.antt =====
-- The whole square root of a natural number, by pairs of binary digits.
use native.Mathlib.Nat.{mul-le-mul}
use native.Mathlib.Decide.{dec_lt}
use spi_nnaker.Prelude.{
  ℕ, zero, suc, ◌+◌, ◌*◌, ◌/◌, ◌≤◌, ◌<◌, ◌≡◌, ◌↔◌, inl, inr, Bool-cases, arith, leb, leb→le,
  if◌then◌else◌, ◌==◌,
}

-- One more binary digit of the root.
grow : ℕ → ℕ → ℕ
grow r v = let r2 = 2 * r in if leb ((r2 + 1) * (r2 + 1)) v then r2 + 1 else r2

isqrt_fuel : ℕ → ℕ → ℕ
isqrt_fuel zero v = 0
isqrt_fuel (suc fuel) v = let r = isqrt_fuel fuel (v / 4) in if v == 0 then 0 else grow r v

abbrev IsRoot : ℕ → ℕ → Type 0
IsRoot r v = (r * r ≤ v) × (v < (r + 1) * (r + 1))

grow-IsRoot : (r v : ℕ) → IsRoot r (v / 4) → IsRoot (grow r v) v
unfolding grow
grow-IsRoot r v (lo, hi) = elim (Bool-cases (leb ((2 * r + 1) * (2 * r + 1)) v)) [
  | inl fits ↦ let h = leb→le _ v fits in rw fits (h, omega arith)
  | inr large ↦ let h : v < (2 * r + 1) * (2 * r + 1) = ground arith in rw large (omega arith, h)
]

isqrt_fuel-IsRoot : (fuel v : ℕ) → v ≤ fuel → IsRoot (isqrt_fuel fuel v) v
unfolding isqrt_fuel
isqrt_fuel-IsRoot zero v h = omega arith
isqrt_fuel-IsRoot (suc fuel) v h = elim (Bool-cases (v == 0)) [
  | inl none ↦ let e : v ≡ 0 = ground arith in rw none (rw e (omega arith))
  | inr more ↦
      let ih = isqrt_fuel-IsRoot fuel (v / 4) (ground arith) in
      rw more (grow-IsRoot (isqrt_fuel fuel (v / 4)) v ih)
]

-- Fuel `v` is enough, since every step divides by 4.
unfoldable pub isqrt : ℕ → ℕ
unfolding isqrt_fuel grow
isqrt v = isqrt_fuel v v

isqrt-IsRoot : (v : ℕ) → IsRoot (isqrt v) v
unfolding isqrt
isqrt-IsRoot v = isqrt_fuel-IsRoot v v (omega arith)

pub isqrt-lt_iff : (v k : ℕ) → (isqrt v < k) ↔ (v < k * k)
isqrt-lt_iff v k =
    let (lo, hi) = isqrt-IsRoot v in
    (
      λ h. omega (arith, hi, mul-le-mul h h),
      λ h. elim (dec_lt (isqrt v) k) [
        | yes p ↦ p
        | no p ↦ let q : k ≤ isqrt v = omega arith in absurd (omega (arith, lo, mul-le-mul q q))
      ],
    )

-- ===== src/Prelude/Bits.antt =====
-- `|` and `&` of machine words as arithmetic: both act on the high and the low part of a word on
-- their own, wherever it is cut.
use Prim.Native.Nat.{ℕ, zero, suc, ◌+◌, ◌-◌, ◌*◌, ◌/◌, ◌%◌, ◌^◌, ◌≤◌, ◌<◌, min, max}
use Prim.Native.Nat.{digits, bitwise, bit_and, bit_or, bit_and-bitwise, bit_or-bitwise}
use mathlib.Core.Path.{◌≡◌, refl, ap}
use native.Mathlib.Nat.{pow-suc, one-le-pow, div-add-mod}
use native.Mathlib.Omega.{arith}

-- One step of the digit recursion, whatever fuel covers the first argument.
module _ (rest : ℕ → ℕ) (op : ℕ → ℕ → ℕ) where
  digits_enough : (n m a b : ℕ) → a ≤ n → a ≤ m → digits rest op n a b ≡ digits rest op m a b
  digits_enough zero zero zero b p q = refl
  digits_enough zero (suc m) zero b p q = refl
  digits_enough (suc n) zero zero b p q = refl
  digits_enough (suc n) (suc m) zero b p q = refl
  digits_enough zero m (suc a) b p q = absurd (omega arith)
  digits_enough (suc n) zero (suc a) b p q = absurd (omega arith)
  digits_enough (suc n) (suc m) (suc a) b p q =
      rw (digits_enough n m (suc a / 2) (b / 2) (omega arith) (omega arith))

  bitwise_step :
      (a b : ℕ)
      → bitwise rest op (suc a) b ≡ bitwise rest op (suc a / 2) (b / 2) * 2 + op (suc a % 2) (b % 2)
  bitwise_step a b =
      omega (arith, digits_enough a (suc a / 2) (suc a / 2) (b / 2) (omega arith) (omega arith))

or_step : (a b : ℕ) → bit_or a b ≡ bit_or (a / 2) (b / 2) * 2 + max (a % 2) (b % 2)
or_step zero b = simp bit_or-bitwise (omega arith)
or_step (suc a) b = simp bit_or-bitwise (bitwise_step (λ y. y) max a b)

and_step : (a b : ℕ) → bit_and a b ≡ bit_and (a / 2) (b / 2) * 2 + min (a % 2) (b % 2)
and_step zero b = simp bit_and-bitwise (omega arith)
and_step (suc a) b = simp bit_and-bitwise (bitwise_step (λ y. 0) min a b)

or_none : (b d : ℕ) → b < 1 → d < 1 → bit_or b d ≡ 0
or_none zero zero hb hd = refl
or_none zero (suc d) hb hd = absurd (omega arith)
or_none (suc b) d hb hd = absurd (omega arith)

and_none : (b d : ℕ) → b < 1 → d < 1 → bit_and b d ≡ 0
and_none zero d hb hd = bit_and-bitwise 0 d
and_none (suc b) d hb hd = absurd (omega arith)

two_pow_pos : (k : ℕ) → 0 < 2 ^ k
two_pow_pos k = one-le-pow k 2 (omega arith)

double : (a k : ℕ) → a * 2 ^ suc k ≡ 2 * (a * 2 ^ k)
double a k = omega (arith, ap (λ (t : ℕ). a * t) (pow-suc 2 k))

-- `|` of two words of `k` bits is one.
pub bit_or-lt : (k a b : ℕ) → a < 2 ^ k → b < 2 ^ k → bit_or a b < 2 ^ k
bit_or-lt zero a b ha hb = omega (arith, or_none a b)
bit_or-lt (suc k) a b ha hb = omega (
  arith,
  pow-suc 2 k,
  or_step a b,
  bit_or-lt k (a / 2) (b / 2) (omega (arith, pow-suc 2 k)) (omega (arith, pow-suc 2 k)),
)

-- Cutting both words at bit `k`.
pub bit_or_split :
    (k a b c d : ℕ)
    → b < 2 ^ k
    → d < 2 ^ k
    → bit_or (a * 2 ^ k + b) (c * 2 ^ k + d) ≡ bit_or a c * 2 ^ k + bit_or b d
bit_or_split zero a b c d hb hd = ground (arith, or_none b d)
bit_or_split (suc k) a b c d hb hd = ground (
  arith,
  double a k,
  double c k,
  double (bit_or a c) k,
  or_step (a * 2 ^ suc k + b) (c * 2 ^ suc k + d),
  or_step b d,
  bit_or_split k a (b / 2) c (d / 2) (omega (arith, pow-suc 2 k)) (omega (arith, pow-suc 2 k)),
)

pub bit_and_split :
    (k a b c d : ℕ)
    → b < 2 ^ k
    → d < 2 ^ k
    → bit_and (a * 2 ^ k + b) (c * 2 ^ k + d) ≡ bit_and a c * 2 ^ k + bit_and b d
bit_and_split zero a b c d hb hd = ground (arith, and_none b d)
bit_and_split (suc k) a b c d hb hd = ground (
  arith,
  double a k,
  double c k,
  double (bit_and a c) k,
  and_step (a * 2 ^ suc k + b) (c * 2 ^ suc k + d),
  and_step b d,
  bit_and_split k a (b / 2) c (d / 2) (omega (arith, pow-suc 2 k)) (omega (arith, pow-suc 2 k)),
)

pub zero-bit_or : (a : ℕ) → bit_or 0 a ≡ a
zero-bit_or a = bit_or-bitwise 0 a

zero-bit_and : (a : ℕ) → bit_and 0 a ≡ 0
zero-bit_and a = bit_and-bitwise 0 a

bit_or-zero_below : (n a : ℕ) → a ≤ n → bit_or a 0 ≡ a
bit_or-zero_below n zero h = refl
bit_or-zero_below zero (suc a) h = absurd (omega arith)
bit_or-zero_below (suc n) (suc a) h =
    omega (arith, or_step (suc a) 0, bit_or-zero_below n (suc a / 2) (omega arith))

pub bit_or-zero : (a : ℕ) → bit_or a 0 ≡ a
bit_or-zero a = bit_or-zero_below a a (omega arith)

bit_and-zero_below : (n a : ℕ) → a ≤ n → bit_and a 0 ≡ 0
bit_and-zero_below n zero h = refl
bit_and-zero_below zero (suc a) h = absurd (omega arith)
bit_and-zero_below (suc n) (suc a) h =
    omega (arith, and_step (suc a) 0, bit_and-zero_below n (suc a / 2) (omega arith))

pub bit_and-zero : (a : ℕ) → bit_and a 0 ≡ 0
bit_and-zero a = bit_and-zero_below a a (omega arith)

-- A field of `w` bits goes into a gap of the word, at bit `k`.
pub bit_or_field :
    (k w a b v : ℕ)
    → b < 2 ^ k
    → v < 2 ^ w
    → bit_or (a * 2 ^ w * 2 ^ k + b) (v * 2 ^ k) ≡ a * 2 ^ w * 2 ^ k + v * 2 ^ k + b
bit_or_field k w a b v hb hv = ground (
  arith,
  bit_or_split k (a * 2 ^ w) b v 0 hb (two_pow_pos k),
  bit_or-zero b,
  ap (λ (t : ℕ). t * 2 ^ k) (bit_or_split w a 0 0 v (two_pow_pos w) hv),
  ap (λ (t : ℕ). t * 2 ^ w * 2 ^ k) (bit_or-zero a),
  ap (λ (t : ℕ). t * 2 ^ k) (zero-bit_or v),
)

low_ones : (k a : ℕ) → a < 2 ^ k → bit_and a (2 ^ k - 1) ≡ a
low_ones zero a h = omega (arith, bit_and-zero a)
low_ones (suc k) a h = ground (
  arith,
  pow-suc 2 k,
  two_pow_pos k,
  and_step a (2 ^ suc k - 1),
  low_ones k (a / 2) (omega (arith, pow-suc 2 k)),
)

-- A mask of `k` low ones is the remainder by `2 ^ k`.
pub bit_and_mask : (k a : ℕ) → bit_and a (2 ^ k - 1) ≡ a % 2 ^ k
bit_and_mask k a = ground (
  arith,
  two_pow_pos k,
  div-add-mod a (2 ^ k),
  bit_and_split k (a / 2 ^ k) (a % 2 ^ k) 0 (2 ^ k - 1) (omega (arith, two_pow_pos k))
      (omega (arith, two_pow_pos k)),
  low_ones k (a % 2 ^ k) (omega (arith, two_pow_pos k)),
  ap (λ (t : ℕ). t * 2 ^ k) (bit_and-zero (a / 2 ^ k)),
)

-- A mask whose ones stand at bit `k` and above acts on what is left after a shift by `k`.
pub bit_and_high : (k a m : ℕ) → bit_and a (m * 2 ^ k) ≡ bit_and (a / 2 ^ k) m * 2 ^ k
bit_and_high k a m = ground (
  arith,
  two_pow_pos k,
  div-add-mod a (2 ^ k),
  bit_and_split k (a / 2 ^ k) (a % 2 ^ k) m 0 (omega (arith, two_pow_pos k)) (two_pow_pos k),
  bit_and-zero (a % 2 ^ k),
)

-- ===== src/Parallel/Messages/Fields.antt =====
-- One field at a time: `|` with a field whose place is still free is a sum.
use native.Mathlib.Nat.{div-add-mod, mod-eq_of_lt}
use spi_nnaker.Prelude.{
  ℕ, ◌+◌, ◌*◌, ◌/◌, ◌%◌, ◌^◌, ◌≤◌, ◌<◌, ◌≡◌, bit_and, bit_or, Bool, true, false, arith,
  bit_or_field, bit_and_mask, ◌==◌,
}
use spi_nnaker.Device.{◌<<<◌}
use spi_nnaker.Parallel.Messages.{flag}

abbrev pub bit : Bool → ℕ
bit true = 1
bit false = 0

pub bit-le : (b : Bool) → bit b ≤ 1
bit-le b = ground arith

or_free :
    (k w a v : ℕ) → a % (2 ^ w * 2 ^ k) < 2 ^ k → v < 2 ^ w → bit_or a (v * 2 ^ k) ≡ a + v * 2 ^ k
or_free k w a v free fits =
    let m = 2 ^ w * 2 ^ k in
    ground (arith, div-add-mod a m, bit_or_field k w (a / m) (a % m) v free fits)

-- `a | (v << k)`
pub put_field :
    (k w a v : ℕ)
    → a % (2 ^ w * 2 ^ k) < 2 ^ k
    → v < 2 ^ w
    → v * 2 ^ k < 2 ^ 32
    → bit_or a (v <<< k) ≡ a + v * 2 ^ k
put_field k w a v free fits small = ground (arith, or_free k w a v free fits, mod-eq_of_lt small)

-- `a | v`
pub put_low : (w a v : ℕ) → a % 2 ^ w < 1 → v < 2 ^ w → bit_or a v ≡ a + v
put_low w a v free fits = ground (arith, or_free 0 w a v (ground arith) fits)

-- `if (b) key = key | (1 << k)`
pub flag_sum :
    (b : Bool) (k a : ℕ)
    → a % (2 ^ 1 * 2 ^ k) < 2 ^ k
    → 1 * 2 ^ k < 2 ^ 32
    → flag b k a ≡ a + bit b * 2 ^ k
flag_sum false k a free small = omega arith
flag_sum true k a free small = put_field k 1 a 1 free (omega arith) small

-- A bit that is read back.
pub bit_test : (b : Bool) (n : ℕ) → n % 2 ≡ bit b → (bit_and n 1 == 1) ≡ b
bit_test b n h = ground (arith, bit_and_mask 1 n)

-- ===== src/Parallel/Messages/Kinds.antt =====
-- How a receiver tells the packets apart.
use spi_nnaker.Prelude.{
  ℕ, ◌*◌, ◌/◌, ◌%◌, ◌^◌, ◌<◌, ◌≡◌, bit_and, true, false, arith, bit_and_mask, bit_and_high, ◌==◌,
}
use spi_nnaker.Parallel.Messages.{
  ErrorFields, UpdateFields, pack_error, pack_update, is_error, is_update,
}
use spi_nnaker.Parallel.Messages.Fields.{bit-le}
use spi_nnaker.Parallel.Messages.Errors
use spi_nnaker.Parallel.Messages.Updates

-- The mask of the ERROR test reads the top four bits.
top_four : (key : ℕ) → bit_and key 0xf000_0000 ≡ key / 2 ^ 28 % 16 * 2 ^ 28
top_four key = omega (arith, bit_and_high 28 key 15, bit_and_mask 4 (key / 2 ^ 28))

-- The mask of the UPD test reads the top two bits.
top_two : (key : ℕ) → bit_and key 0xc000_0000 ≡ key / 2 ^ 30 % 4 * 2 ^ 30
top_two key = omega (arith, bit_and_high 30 key 3, bit_and_mask 2 (key / 2 ^ 30))

pub is_error_iff : (key : ℕ) → is_error key ≡ (key / 2 ^ 28 % 16 == 10)
unfolding is_error
is_error_iff key = ground (arith, top_four key)

pub is_update_iff : (key : ℕ) → is_update key ≡ (key / 2 ^ 30 % 4 == 1)
unfolding is_update
is_update_iff key = ground (arith, top_two key)

pub is_error-pack_error : {e : ErrorFields} → Errors.Fits e → is_error (pack_error e).key ≡ true
is_error-pack_error {e} f =
    let b1 = bit-le e.negative_x in
    let b2 = bit-le e.negative_y in
    let k = Errors.key_sum f in rw (is_error_iff (pack_error e).key) (ground arith)

pub is_update-pack_error : {e : ErrorFields} → Errors.Fits e → is_update (pack_error e).key ≡ false
is_update-pack_error {e} f =
    let b1 = bit-le e.negative_x in
    let b2 = bit-le e.negative_y in
    let k = Errors.key_sum f in rw (is_update_iff (pack_error e).key) (ground arith)

pub is_update-pack_update :
    {u : UpdateFields} → Updates.Fits u → is_update (pack_update u).key ≡ true
is_update-pack_update {u} g =
    let c1 = bit-le u.negative_v_y in
    let c2 = bit-le u.negative_v_x in
    let c3 = bit-le u.negative_theta in
    let c4 = bit-le u.negative_psi in
    let l = Updates.key_sum g in rw (is_update_iff (pack_update u).key) (ground arith)

-- Whatever its fields, an ERROR packet passes the test of the nodes and fails that of the master, an UPD
-- packet the other way round.
pub kinds_apart :
    {e : ErrorFields} {u : UpdateFields}
    → Errors.Fits e
    → Updates.Fits u
    → (is_error (pack_error e).key ≡ true)
      × (is_update (pack_error e).key ≡ false)
      × (is_update (pack_update u).key ≡ true)
      × (is_error (pack_update u).key ≡ false)
kinds_apart {e} {u} f g =
    let c1 = bit-le u.negative_v_y in
    let c2 = bit-le u.negative_v_x in
    let c3 = bit-le u.negative_theta in
    let c4 = bit-le u.negative_psi in
    let l = Updates.key_sum g in
    (
      is_error-pack_error f,
      is_update-pack_error f,
      is_update-pack_update g,
      rw (is_error_iff (pack_update u).key) (ground arith),
    )

-- A camera event has a key of 16 bits: it is neither.
pub camera_apart : (key : ℕ) → key < 2 ^ 16 → (is_error key ≡ false) × (is_update key ≡ false)
camera_apart key h = (rw (is_error_iff key) (ground arith), rw (is_update_iff key) (ground arith))

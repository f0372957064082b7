-- ===== src/Parallel/Messages/Errors.antt =====
-- The fields of the ERROR packet of `send_err`, there and back.
use spi_nnaker.Prelude.{
  ◌+◌, ◌*◌, ◌/◌, ◌^◌, ◌<◌, ◌≡◌, bit_and, bit_or, arith, bit_and_mask, zero-bit_or,
}
use spi_nnaker.Device.{◌<<<◌}
use spi_nnaker.Device.Routes.{error_msg}
use spi_nnaker.Parallel.Messages.Fields.{bit, bit-le, bit_test, flag_sum, put_field, put_low}
use spi_nnaker.Parallel.Messages.{ErrorFields, pack_error, unpack_error}

-- The fields fit their places in the key and in the payload.
pub record Fits (e : ErrorFields) : Type 0 where
  pub x_fits : e.x_pos < 256
  pub y_fits : e.y_pos < 256
  pub size_x_fits : e.size_x < 2 ^ 16
  pub size_y_fits : e.size_y < 2 ^ 16
  pub count_fits : e.count < 64

-- `error_msg` and the coordinates
place_sum :
    {e : ErrorFields}
    → Fits e
    → bit_or (bit_or error_msg (e.x_pos <<< 8)) e.y_pos ≡ error_msg + e.x_pos * 2 ^ 8 + e.y_pos
place_sum {e} f =
    ground (arith, put_field 8 8 error_msg e.x_pos, put_low 8 (error_msg + e.x_pos * 2 ^ 8) e.y_pos)

pub key_sum :
    {e : ErrorFields}
    → Fits e
    → (pack_error e).key
      ≡ error_msg
        + e.x_pos * 2 ^ 8
        + e.y_pos
        + bit e.negative_x * 2 ^ 17
        + bit e.negative_y * 2 ^ 16
        + e.count * 2 ^ 20
unfolding pack_error
key_sum {e} f =
    let k0 = error_msg + e.x_pos * 2 ^ 8 + e.y_pos in
    let k1 = k0 + bit e.negative_x * 2 ^ 17 in
    let k2 = k1 + bit e.negative_y * 2 ^ 16 in
    let b1 = bit-le e.negative_x in
    let b2 = bit-le e.negative_y in
    rw
      (
        place_sum f,
        flag_sum e.negative_x 17 k0 (omega arith) (omega arith),
        flag_sum e.negative_y 16 k1 (omega arith) (omega arith),
      )
      (put_field 20 8 k2 e.count (omega arith) (omega arith) (omega arith))

pub payload_sum : {e : ErrorFields} → Fits e → (pack_error e).payload ≡ e.size_x * 2 ^ 16 + e.size_y
unfolding pack_error
payload_sum {e} f =
    ground (arith, zero-bit_or (e.size_x <<< 16), put_low 16 (e.size_x * 2 ^ 16) e.size_y)

-- Every field comes back, for all values that fit.
pub unpack_error-pack_error : {e : ErrorFields} → Fits e → unpack_error (pack_error e) ≡ e
unfolding unpack_error
unpack_error-pack_error {e} f =
    let b1 = bit-le e.negative_x in
    let b2 = bit-le e.negative_y in
    let p = pack_error e in
    let k = key_sum f in
    let l = payload_sum f in
    let x : bit_and (p.key / 2 ^ 8) 0xff ≡ e.x_pos =
      omega (arith, bit_and_mask 8 (p.key / 2 ^ 8)) in
    let y : bit_and p.key 0xff ≡ e.y_pos = omega (arith, bit_and_mask 8 p.key) in
    let nx = bit_test e.negative_x (p.key / 2 ^ 17) (omega arith) in
    let ny = bit_test e.negative_y (p.key / 2 ^ 16) (omega arith) in
    let sx : p.payload / 2 ^ 16 ≡ e.size_x = omega arith in
    let sy : bit_and p.payload 0xffff ≡ e.size_y = omega (arith, bit_and_mask 16 p.payload) in
    let c : bit_and (p.key / 2 ^ 20) 0xff ≡ e.count =
      omega (arith, bit_and_mask 8 (p.key / 2 ^ 20)) in
    λ i. record {
      x_pos = x i;
      y_pos = y i;
      negative_x = nx i;
      negative_y = ny i;
      size_x = sx i;
      size_y = sy i;
      count = c i;
    }

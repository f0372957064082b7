-- ===== src/Parallel/Messages/Updates.antt =====
-- The fields of the UPD packet of `send_upd`, there and back.
use spi_nnaker.Prelude.{◌+◌, ◌*◌, ◌/◌, ◌^◌, ◌<◌, ◌≡◌, bit_and, arith, bit_and_mask, zero-bit_or}
use spi_nnaker.Device.{◌<<<◌}
use spi_nnaker.Device.Routes.{upd_msg}
use spi_nnaker.Parallel.Messages.Fields.{bit, bit-le, bit_test, flag_sum, put_field, put_low}
use spi_nnaker.Parallel.Messages.{UpdateFields, pack_update, unpack_update}

-- The fields fit their places in the key and in the payload.
pub record Fits (u : UpdateFields) : Type 0 where
  pub index_fits : u.index < 64
  pub size_v_x_fits : u.size_v_x < 1024
  pub size_v_y_fits : u.size_v_y < 1024
  pub size_theta_fits : u.size_theta < 2 ^ 16
  pub size_psi_fits : u.size_psi < 2 ^ 16

-- The key of `send_upd` as a sum.
pub key_sum :
    {u : UpdateFields}
    → Fits u
    → (pack_update u).key
      ≡ upd_msg
        + bit u.negative_v_y * 2 ^ 29
        + u.size_v_y * 2 ^ 10
        + bit u.negative_v_x * 2 ^ 28
        + u.size_v_x
        + bit u.negative_theta * 2 ^ 27
        + bit u.negative_psi * 2 ^ 26
        + u.index * 2 ^ 20
unfolding pack_update
key_sum {u} f =
    let b1 = bit-le u.negative_v_y in
    let b2 = bit-le u.negative_v_x in
    let b3 = bit-le u.negative_theta in
    let b4 = bit-le u.negative_psi in
    let k1 = upd_msg + bit u.negative_v_y * 2 ^ 29 in
    let k2 = k1 + u.size_v_y * 2 ^ 10 in
    let k3 = k2 + bit u.negative_v_x * 2 ^ 28 in
    let k4 = k3 + u.size_v_x in
    let k5 = k4 + bit u.negative_theta * 2 ^ 27 in
    let k6 = k5 + bit u.negative_psi * 2 ^ 26 in
    rw
      (
        flag_sum u.negative_v_y 29 upd_msg (omega arith) (omega arith),
        put_field 10 10 k1 u.size_v_y (omega arith) (omega arith) (omega arith),
        flag_sum u.negative_v_x 28 k2 (omega arith) (omega arith),
        put_low 10 k3 u.size_v_x (omega arith) (omega arith),
        flag_sum u.negative_theta 27 k4 (omega arith) (omega arith),
        flag_sum u.negative_psi 26 k5 (omega arith) (omega arith),
      )
      (put_field 20 6 k6 u.index (omega arith) (omega arith) (omega arith))

pub payload_sum :
    {u : UpdateFields} → Fits u → (pack_update u).payload ≡ u.size_theta * 2 ^ 16 + u.size_psi
unfolding pack_update
payload_sum {u} f =
    ground (arith, zero-bit_or (u.size_theta <<< 16), put_low 16 (u.size_theta * 2 ^ 16) u.size_psi)

-- Every field comes back, for all values that fit.
pub unpack_update-pack_update : {u : UpdateFields} → Fits u → unpack_update (pack_update u) ≡ u
unfolding unpack_update
unpack_update-pack_update {u} f =
    let b1 = bit-le u.negative_v_y in
    let b2 = bit-le u.negative_v_x in
    let b3 = bit-le u.negative_theta in
    let b4 = bit-le u.negative_psi in
    let p = pack_update u in
    let k = key_sum f in
    let l = payload_sum f in
    let index : bit_and (p.key / 2 ^ 20) 0x3f ≡ u.index =
      omega (arith, bit_and_mask 6 (p.key / 2 ^ 20)) in
    let n1 = bit_test u.negative_v_x (p.key / 2 ^ 28) (omega arith) in
    let n2 = bit_test u.negative_v_y (p.key / 2 ^ 29) (omega arith) in
    let n3 = bit_test u.negative_theta (p.key / 2 ^ 27) (omega arith) in
    let n4 = bit_test u.negative_psi (p.key / 2 ^ 26) (omega arith) in
    let s1 : bit_and p.key 0x3ff ≡ u.size_v_x = omega (arith, bit_and_mask 10 p.key) in
    let s2 : bit_and (p.key / 2 ^ 10) 0x3ff ≡ u.size_v_y =
      omega (arith, bit_and_mask 10 (p.key / 2 ^ 10)) in
    let s3 : p.payload / 2 ^ 16 ≡ u.size_theta = omega arith in
    let s4 : bit_and p.payload 0xffff ≡ u.size_psi = omega (arith, bit_and_mask 16 p.payload) in
    λ i. record {
      index = index i;
      negative_v_x = n1 i;
      negative_v_y = n2 i;
      negative_theta = n3 i;
      negative_psi = n4 i;
      size_v_x = s1 i;
      size_v_y = s2 i;
      size_theta = s3 i;
      size_psi = s4 i;
    }

-- ===== src/Parallel/Messages.antt =====
-- The bit fields of the packets of parallel/network.c: what `send_err` and `send_upd` put together
-- and what `rec_err` and `rec_upd` take apart.
mod Fields
pub mod Errors
pub mod Updates
pub mod Kinds
use spi_nnaker.Prelude.{ℕ, ◌/◌, ◌^◌, bit_and, bit_or, Bool, if◌then◌else◌, ◌==◌}
use spi_nnaker.Device.{◌<<<◌}
use spi_nnaker.Device.Routes.{error_msg, upd_msg}

-- A packet sent: key and payload.
abbrev pub Packet : Type 0
Packet = record { key : ℕ; payload : ℕ }

-- What an ERROR packet carries. A sign is true for a negative value.
pub record ErrorFields : Type 0 where
  pub x_pos : ℕ
  pub y_pos : ℕ
  pub negative_x : Bool
  pub negative_y : Bool
  pub size_x : ℕ
  pub size_y : ℕ
  pub count : ℕ

-- `key = key | (1 << k)` under a test
abbrev pub flag : Bool → ℕ → ℕ → ℕ
flag b k key = if b then bit_or key (1 <<< k) else key

-- The key and the payload of `send_err`, `count` being the new value of `counter`.
unfoldable pub pack_error : ErrorFields → Packet
pack_error e =
    let key = bit_or (bit_or error_msg (e.x_pos <<< 8)) e.y_pos in
    record {
      key = bit_or (flag e.negative_y 16 (flag e.negative_x 17 key)) (e.count <<< 20);
      payload = bit_or (bit_or 0 (e.size_x <<< 16)) e.size_y;
    }

-- `(key >> 17) & 0x00000001 == 1` is read by C as `(key >> 17) & (0x00000001 == 1)`.
unfoldable pub unpack_error : Packet → ErrorFields
unpack_error p = record {
  x_pos = bit_and (p.key / 2 ^ 8) 0xff;
  y_pos = bit_and p.key 0xff;
  negative_x = bit_and (p.key / 2 ^ 17) 1 == 1;
  negative_y = bit_and (p.key / 2 ^ 16) 1 == 1;
  size_x = p.payload / 2 ^ 16;
  size_y = bit_and p.payload 0xffff;
  count = bit_and (p.key / 2 ^ 20) 0xff;
}

-- What an UPD packet carries.
pub record UpdateFields : Type 0 where
  pub index : ℕ
  pub negative_v_x : Bool
  pub negative_v_y : Bool
  pub negative_theta : Bool
  pub negative_psi : Bool
  pub size_v_x : ℕ
  pub size_v_y : ℕ
  pub size_theta : ℕ
  pub size_psi : ℕ

-- The key and the payload of `send_upd`.
unfoldable pub pack_update : UpdateFields → Packet
pack_update u =
    let key1 = bit_or (flag u.negative_v_y 29 upd_msg) (u.size_v_y <<< 10) in
    let key2 = bit_or (flag u.negative_v_x 28 key1) u.size_v_x in
    record {
      key = bit_or (flag u.negative_psi 26 (flag u.negative_theta 27 key2)) (u.index <<< 20);
      payload = bit_or (bit_or 0 (u.size_theta <<< 16)) u.size_psi;
    }

unfoldable pub unpack_update : Packet → UpdateFields
unpack_update p = record {
  index = bit_and (p.key / 2 ^ 20) 0x3f;
  negative_v_x = bit_and (p.key / 2 ^ 28) 1 == 1;
  negative_v_y = bit_and (p.key / 2 ^ 29) 1 == 1;
  negative_theta = bit_and (p.key / 2 ^ 27) 1 == 1;
  negative_psi = bit_and (p.key / 2 ^ 26) 1 == 1;
  size_v_x = bit_and p.key 0x3ff;
  size_v_y = bit_and (p.key / 2 ^ 10) 0x3ff;
  size_theta = p.payload / 2 ^ 16;
  size_psi = bit_and p.payload 0xffff;
}

-- The tests of `eventNode` and `eventMaster`.
unfoldable pub is_error : ℕ → Bool
is_error key = bit_and key 0xf000_0000 == error_msg

unfoldable pub is_update : ℕ → Bool
is_update key = bit_and key 0xc000_0000 == upd_msg

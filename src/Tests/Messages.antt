-- ===== src/Tests/Messages.antt =====
-- The packets of the parallel version.
use spi_nnaker.Prelude.{◌≤◌, ◌≡◌, ◌↔◌, refl, true, false, none, List, [], ◌∷◌, map, arith}
use spi_nnaker.Prelude.Int.{pos, ◌-ℤ◌, to_uint}
use spi_nnaker.Platform.Fixed.{fixed, fixed-Laws}
use spi_nnaker.Parallel.Motion
use spi_nnaker.Device.{send_mc}
use spi_nnaker.Parallel.Messages.{
  ErrorFields, UpdateFields, pack_error, unpack_error, pack_update, unpack_update,
}
use spi_nnaker.Parallel.Messages.Errors
use spi_nnaker.Parallel.Messages.Updates
use spi_nnaker.Parallel.Node.{
  node_index, update_fields, send_upd, is_negative, scaled, received, rec_err,
}
use spi_nnaker.Parallel.Node.Once.{Delivery, packets_of, deliver_all, learn_all}
use spi_nnaker.Parallel.Master.{rec_upd, error_fields, send_err}
use spi_nnaker.Parallel.Master.Stream.{
  Tick, ErrorsFit, sends, stream, rec_err-send_err, stream_once,
}
use spi_nnaker.Parallel.Master.Fault.{kept, rec_upd-send_upd, rec_upd-none}
use spi_nnaker.Tests.Data.{critic, parallel, node}

abbrev error : ErrorFields
error = record {
  x_pos = 64;
  y_pos = 100;
  negative_x = false;
  negative_y = true;
  size_x = 1234;
  size_y = 9999;
  count = 49;
}

abbrev error-Fits : Errors.Fits error
error-Fits = record {
  x_fits = omega arith;
  y_fits = omega arith;
  size_x_fits = omega arith;
  size_y_fits = omega arith;
  count_fits = omega arith;
}

abbrev upd : UpdateFields
upd = record {
  index = 63;
  negative_v_x = true;
  negative_v_y = false;
  negative_theta = false;
  negative_psi = true;
  size_v_x = 1000;
  size_v_y = 17;
  size_theta = 10000;
  size_psi = 3;
}

abbrev upd-Fits : Updates.Fits upd
upd-Fits = record {
  index_fits = omega arith;
  size_v_x_fits = omega arith;
  size_v_y_fits = omega arith;
  size_theta_fits = omega arith;
  size_psi_fits = omega arith;
}

unpack_error-pack_error_example : unpack_error (pack_error error) ≡ error
unpack_error-pack_error_example = Errors.unpack_error-pack_error error-Fits

unpack_update-pack_update_example : unpack_update (pack_update upd) ≡ upd
unpack_update-pack_update_example = Updates.unpack_update-pack_update upd-Fits

abbrev ticks : List (Tick fixed fixed-Laws)
ticks = record { x = 64; y = 60; critic = critic } ∷ record { x = 65; y = 60; critic = critic } ∷ []

abbrev stream_deliveries : List Delivery
stream_deliveries =
    map (λ p. record { packet = p; again = 8 }) (stream fixed fixed-Laws ticks parallel)

rec_err-send_err_example :
    let p = pack_error (error_fields fixed 64 60 parallel) in
    ((send_err fixed 64 60 parallel).1 ≡ send_mc p.key p.payload ∷ [])
    × (rec_err fixed p.key p.payload 3 parallel ≡ record parallel {
      ball = Motion.normalize_ball_params fixed (pos 64) (pos 60) 3 parallel.ball;
      critic = record (parallel.critic) {
        error_x =
            received fixed
              (is_negative fixed parallel.critic.error_x)
              (to_uint (scaled fixed parallel.critic.error_x (fixed.decimal 10000 0)))
              (fixed.decimal 10000 0);
        error_y =
            received fixed
              (is_negative fixed parallel.critic.error_y)
              (to_uint (scaled fixed parallel.critic.error_y (fixed.decimal 10000 0)))
              (fixed.decimal 10000 0);
      };
    })
unfolding ◌-ℤ◌
rec_err-send_err_example =
    rec_err-send_err fixed fixed-Laws 64 60 3 parallel parallel (omega arith) (omega arith) (
      record { number = refl; above = refl; below = refl },
      record { number = refl; above = refl; below = refl },
    )

stream_once_example :
    (sends fixed fixed-Laws ticks parallel
      ≡ map (λ p. send_mc p.key p.payload) (packets_of stream_deliveries))
    × (deliver_all fixed stream_deliveries node
        ≡ learn_all fixed (packets_of stream_deliveries) node)
unfolding ◌-ℤ◌
stream_once_example =
    let fits : ErrorsFit fixed fixed-Laws critic = (
      record { number = refl; above = refl; below = refl },
      record { number = refl; above = refl; below = refl },
    ) in
    stream_once fixed fixed-Laws ticks parallel node stream_deliveries
      (omega arith, omega arith, fits, (omega arith, omega arith, fits, tt)) (omega arith) refl refl

rec_upd-send_upd_example :
    let p = pack_update (update_fields fixed parallel) in
    (send_upd fixed parallel ≡ send_mc p.key p.payload ∷ [])
    × (rec_upd fixed p.key p.payload parallel
        ≡ kept fixed fixed-Laws (update_fields fixed parallel) parallel)
unfolding node_index
rec_upd-send_upd_example =
    rec_upd-send_upd fixed fixed-Laws parallel parallel
      (ground arith, ground arith, ground arith, ground arith) (ground arith)

-- Core 12 of chip 257 has index 59.
rec_upd-none_example :
    let g = record parallel { chip_id = 257; core_id = 12 } in
    let p = pack_update (update_fields fixed g) in
    (rec_upd fixed p.key p.payload parallel ≡ none) ↔ (59 ≤ node_index 257 12)
unfolding node_index
rec_upd-none_example =
    rec_upd-none fixed fixed-Laws (record parallel { chip_id = 257; core_id = 12 }) parallel
      (ground arith, ground arith, ground arith, ground arith) (ground arith)

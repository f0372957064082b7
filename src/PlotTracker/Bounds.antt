-- ===== src/PlotTracker/Bounds.antt =====
-- The ranges of the speeds and accelerations.
use spi_nnaker.Prelude.{ℕ, ◌*◌, ◌≤◌, Bool, false, List, [], ◌∷◌, arith, subst, All}
use spi_nnaker.Prelude.Int.{ℤ, pos, pos_part, neg_part, ◌-ℤ◌, ◌*ℤ◌}
use spi_nnaker.Track.Valid.{IsValid, IsValid-bounds, store-IsValid}
use spi_nnaker.PlotTracker.{
  Plot, inv_tick_time, to_signed, compute_pos, compute_speed, compute_acceleration,
}
use spi_nnaker.PlotTracker.Agrees.{as_tracker, store-as_tracker}
use spi_nnaker.PlotTracker.Speeds.{Call, sample, speed, acceleration, call, run}

-- `v` is at least `-b` and at most `b`.
abbrev pub IsUpTo : ℕ → ℤ → Type 0
IsUpTo b v = (pos_part v ≤ b) × (neg_part v ≤ b)

pub record IsInRange (p : Plot) : Type 0 where
  pub filter : IsValid (as_tracker false p)
  pub old_x : p.old_x_pos ≤ 127
  pub old_y : p.old_y_pos ≤ 127
  pub speed_x : IsUpTo 1270 p.x_speed
  pub speed_y : IsUpTo 1270 p.y_speed
  pub old_speed_x : IsUpTo 1270 p.old_x_speed
  pub old_speed_y : IsUpTo 1270 p.old_y_speed
  pub acceleration_x : IsUpTo 25_400 p.x_acceleration
  pub acceleration_y : IsUpTo 25_400 p.y_acceleration

abbrev pub IsCameraCall : Call → Type 0
IsCameraCall (sample x y) = (x ≤ 127) × (y ≤ 127)
IsCameraCall _ = Unit

uncomputed :
    (computed : Bool) (p : Plot) → IsValid (as_tracker computed p) → IsValid (as_tracker false p)
uncomputed computed p v = record {
  length_x = v.length_x;
  length_y = v.length_y;
  samples_x = v.samples_x;
  samples_y = v.samples_y;
  index_in = v.index_in;
  total_x = v.total_x;
  total_y = v.total_y;
  mean_x = v.mean_x;
  mean_y = v.mean_y;
}

difference-IsUpTo :
    (b : ℕ) (v w : ℤ) → IsUpTo b v → IsUpTo b w → IsUpTo (20 * b) ((v -ℤ w) *ℤ inv_tick_time)
unfolding ◌-ℤ◌ ◌*ℤ◌
difference-IsUpTo b v w hv hw = ground arith

speed-IsUpTo :
    (m n : ℕ) → m ≤ 127 → n ≤ 127 → IsUpTo 1270 ((to_signed m -ℤ to_signed n) *ℤ inv_tick_time)
unfolding ◌-ℤ◌ ◌*ℤ◌
speed-IsUpTo m n hm hn = ground arith

call-IsInRange : (c : Call) {p : Plot} → IsCameraCall c → IsInRange p → IsInRange (call c p)
unfolding compute_pos compute_speed compute_acceleration
call-IsInRange (sample x y) {p} (hx, hy) h = record {
  filter = uncomputed _ (compute_pos x y p) (
      subst IsValid (store-as_tracker false p x y hx hy h.filter)
        (store-IsValid (pos x) (pos y) (omega arith) (omega arith) h.filter));
  old_x = h.old_x;
  old_y = h.old_y;
  speed_x = h.speed_x;
  speed_y = h.speed_y;
  old_speed_x = h.old_speed_x;
  old_speed_y = h.old_speed_y;
  acceleration_x = h.acceleration_x;
  acceleration_y = h.acceleration_y;
}
call-IsInRange speed {p} hc h =
    let (at_x, at_y, _, _) = IsValid-bounds h.filter in
    record {
      filter = uncomputed false (compute_speed p) h.filter;
      old_x = omega arith;
      old_y = omega arith;
      speed_x = speed-IsUpTo p.x_pos p.old_x_pos (omega arith) h.old_x;
      speed_y = speed-IsUpTo p.y_pos p.old_y_pos (omega arith) h.old_y;
      old_speed_x = h.old_speed_x;
      old_speed_y = h.old_speed_y;
      acceleration_x = h.acceleration_x;
      acceleration_y = h.acceleration_y;
    }
call-IsInRange acceleration {p} hc h = record {
  filter = uncomputed false (compute_acceleration p) h.filter;
  old_x = h.old_x;
  old_y = h.old_y;
  speed_x = h.speed_x;
  speed_y = h.speed_y;
  old_speed_x = h.speed_x;
  old_speed_y = h.speed_y;
  acceleration_x = difference-IsUpTo 1270 p.x_speed p.old_x_speed h.speed_x h.old_speed_x;
  acceleration_y = difference-IsUpTo 1270 p.y_speed p.old_y_speed h.speed_y h.old_speed_y;
}

-- Whatever the order of the calls, as long as the samples are camera coordinates, the buffers, totals
-- and positions of the filter stay valid, no speed exceeds 1270 and no acceleration 25400 in size.
pub run-IsInRange :
    (calls : List Call) {p : Plot} → All IsCameraCall calls → IsInRange p → IsInRange (run calls p)
run-IsInRange [] h r = r
run-IsInRange (c ∷ calls) h r = run-IsInRange calls h.1 (call-IsInRange c h.0 r)

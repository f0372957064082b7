-- ===== src/PlotTracker/Speeds.antt =====
-- The speeds and accelerations of a run: samples of the camera, and calls of `compute_speed` and of
-- `compute_acceleration`, in any order.
use spi_nnaker.Prelude.{ℕ, ◌*◌, ◌≡◌, List, [], ◌∷◌, arith}
use spi_nnaker.Prelude.Int.{ℤ, pos, pos_part, neg_part, ◌-ℤ◌, ◌+ℤ◌, ◌*ℤ◌, sum_ℤ, int_laws}
use spi_nnaker.PlotTracker.{
  Plot, inv_tick_time, to_signed, compute_pos, compute_speed, compute_acceleration,
}

pub data Call : Type 0 where
  sample : ℕ → ℕ → Call
  speed acceleration : Call

abbrev pub call : Call → Plot → Plot
call (sample x y) p = compute_pos x y p
call speed p = compute_speed p
call acceleration p = compute_acceleration p

abbrev pub run : List Call → Plot → Plot
run [] p = p
run (c ∷ calls) p = run calls (call c p)

-- The speeds that a run computes, in the order of the calls, and the accelerations.
abbrev pub speeds : (Plot → ℤ) → List Call → Plot → List ℤ
speeds axis [] p = []
speeds axis (sample x y ∷ calls) p = speeds axis calls (compute_pos x y p)
speeds axis (speed ∷ calls) p = axis (compute_speed p) ∷ speeds axis calls (compute_speed p)
speeds axis (acceleration ∷ calls) p = speeds axis calls (compute_acceleration p)

abbrev pub accelerations : (Plot → ℤ) → List Call → Plot → List ℤ
accelerations axis [] p = []
accelerations axis (sample x y ∷ calls) p = accelerations axis calls (compute_pos x y p)
accelerations axis (speed ∷ calls) p = accelerations axis calls (compute_speed p)
accelerations axis (acceleration ∷ calls) p =
    axis (compute_acceleration p) ∷ accelerations axis calls (compute_acceleration p)

ten_times :
    (a : ℤ)
    → (pos_part (a *ℤ inv_tick_time) ≡ 10 * pos_part a)
      × (neg_part (a *ℤ inv_tick_time) ≡ 10 * neg_part a)
unfolding ◌*ℤ◌
ten_times a = ground arith

no_way : (a : ℤ) → pos 0 ≡ (a -ℤ a) *ℤ inv_tick_time
no_way a = omega (int_laws, ten_times (a -ℤ a))

way_on :
    (a b c : ℤ) {rest : ℤ}
    → rest ≡ (c -ℤ b) *ℤ inv_tick_time
    → (b -ℤ a) *ℤ inv_tick_time +ℤ rest ≡ (c -ℤ a) *ℤ inv_tick_time
way_on a b c e = rw e (omega (int_laws, ten_times (b -ℤ a), ten_times (c -ℤ b), ten_times (c -ℤ a)))

speeds_x-sum :
    (calls : List Call) (p : Plot)
    → sum_ℤ (speeds (λ q. q.x_speed) calls p)
      ≡ (to_signed (run calls p).old_x_pos -ℤ to_signed p.old_x_pos) *ℤ inv_tick_time
unfolding compute_pos compute_speed compute_acceleration
speeds_x-sum [] p = no_way (to_signed p.old_x_pos)
speeds_x-sum (sample x y ∷ calls) p = speeds_x-sum calls (compute_pos x y p)
speeds_x-sum (speed ∷ calls) p =
    way_on (to_signed p.old_x_pos) (to_signed p.x_pos) _ (speeds_x-sum calls (compute_speed p))
speeds_x-sum (acceleration ∷ calls) p = speeds_x-sum calls (compute_acceleration p)

speeds_y-sum :
    (calls : List Call) (p : Plot)
    → sum_ℤ (speeds (λ q. q.y_speed) calls p)
      ≡ (to_signed (run calls p).old_y_pos -ℤ to_signed p.old_y_pos) *ℤ inv_tick_time
unfolding compute_pos compute_speed compute_acceleration
speeds_y-sum [] p = no_way (to_signed p.old_y_pos)
speeds_y-sum (sample x y ∷ calls) p = speeds_y-sum calls (compute_pos x y p)
speeds_y-sum (speed ∷ calls) p =
    way_on (to_signed p.old_y_pos) (to_signed p.y_pos) _ (speeds_y-sum calls (compute_speed p))
speeds_y-sum (acceleration ∷ calls) p = speeds_y-sum calls (compute_acceleration p)

accelerations_x-sum :
    (calls : List Call) (p : Plot)
    → sum_ℤ (accelerations (λ q. q.x_acceleration) calls p)
      ≡ ((run calls p).old_x_speed -ℤ p.old_x_speed) *ℤ inv_tick_time
unfolding compute_pos compute_speed compute_acceleration
accelerations_x-sum [] p = no_way p.old_x_speed
accelerations_x-sum (sample x y ∷ calls) p = accelerations_x-sum calls (compute_pos x y p)
accelerations_x-sum (speed ∷ calls) p = accelerations_x-sum calls (compute_speed p)
accelerations_x-sum (acceleration ∷ calls) p =
    way_on p.old_x_speed p.x_speed _ (accelerations_x-sum calls (compute_acceleration p))

accelerations_y-sum :
    (calls : List Call) (p : Plot)
    → sum_ℤ (accelerations (λ q. q.y_acceleration) calls p)
      ≡ ((run calls p).old_y_speed -ℤ p.old_y_speed) *ℤ inv_tick_time
unfolding compute_pos compute_speed compute_acceleration
accelerations_y-sum [] p = no_way p.old_y_speed
accelerations_y-sum (sample x y ∷ calls) p = accelerations_y-sum calls (compute_pos x y p)
accelerations_y-sum (speed ∷ calls) p = accelerations_y-sum calls (compute_speed p)
accelerations_y-sum (acceleration ∷ calls) p =
    way_on p.old_y_speed p.y_speed _ (accelerations_y-sum calls (compute_acceleration p))

-- Whatever the order of the calls, on each axis the speeds of a run add up to ten times the way from the
-- position at the last speed before the run to the position at its last speed, and the accelerations
-- to ten times the change of the speed between the last accelerations.
pub sums_telescope :
    (calls : List Call) (p : Plot)
    → let q = run calls p in
      (sum_ℤ (speeds (λ r. r.x_speed) calls p)
        ≡ (to_signed q.old_x_pos -ℤ to_signed p.old_x_pos) *ℤ inv_tick_time)
      × (sum_ℤ (speeds (λ r. r.y_speed) calls p)
          ≡ (to_signed q.old_y_pos -ℤ to_signed p.old_y_pos) *ℤ inv_tick_time)
      × (sum_ℤ (accelerations (λ r. r.x_acceleration) calls p)
          ≡ (q.old_x_speed -ℤ p.old_x_speed) *ℤ inv_tick_time)
      × (sum_ℤ (accelerations (λ r. r.y_acceleration) calls p)
          ≡ (q.old_y_speed -ℤ p.old_y_speed) *ℤ inv_tick_time)
sums_telescope calls p = (
  speeds_x-sum calls p,
  speeds_y-sum calls p,
  accelerations_x-sum calls p,
  accelerations_y-sum calls p,
)

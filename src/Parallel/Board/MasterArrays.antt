-- ===== src/Parallel/Board/MasterArrays.antt =====
-- The master of the board: its arrays, its tracker, and what it sends.
pub mod Packets
use spi_nnaker.Prelude.{
  ℕ, ◌%◌, ◌<◌, ◌≡◌, refl, true, false, not, ◌&&◌, ◌||◌, Bool-cases, inl, inr, List, [], ◌∷◌, ◌==◌,
  if◌then◌else◌, if-keeps, arith, All, All-append, length,
}
use spi_nnaker.Prelude.Int.{ℤ, to_uint}
use spi_nnaker.Platform.{Platform, Laws}
use spi_nnaker.Calc.Bounds.{clamped-IsWithin}
use spi_nnaker.Network.Rings.{RingsFit}
use spi_nnaker.Parallel.Motion.Agrees.{normalize_ball_params-RingsFit}
use spi_nnaker.Parallel.Activity
use spi_nnaker.Track.Valid.{IsValid, IsValid-bounds, IsCoordinate}
use spi_nnaker.Device.{Effect, Event, send_mc, motors_key, send_norm_motor_command}
use spi_nnaker.Sequential.Controller.{is_unbalanced, is_balanced}
use spi_nnaker.Parallel.Globals.{n_mfm}
use spi_nnaker.Parallel.Messages.{is_update}
use spi_nnaker.Parallel.Messages.Kinds.{is_update-pack_error}
use spi_nnaker.Parallel.Master.{
  Master, is_saved, update_error, move, send_err, control, update, save_step,
}
use spi_nnaker.Parallel.Master.Stream.{ErrorsFit, error_fields-Fits}
use spi_nnaker.Sequential.Globals.{saved}
use spi_nnaker.Parallel.Board.NodeArrays.{IsKept}

pub record MasterFits {N : Type 0} (m : Master N) : Type 0 where
  pub tracker : IsValid m.tracker
  pub rings : RingsFit m.network.ball
  pub v_x_fits : length m.network.v_x_array ≡ n_mfm
  pub v_y_fits : length m.network.v_y_array ≡ n_mfm
  pub theta_fits : length m.network.a_theta_array ≡ n_mfm
  pub psi_fits : length m.network.a_psi_array ≡ n_mfm
  pub counter_fits : m.network.counter < 50

pub not-IsKept : (key payload : ℕ) → is_update key ≡ false → IsKept (send_mc key payload)
not-IsKept key payload e h = ground arith

-- No motor command is an update.
is_update-motors_key : is_update motors_key ≡ false
unfolding is_update
is_update-motors_key = refl

module _ (P : Platform) where
  open P use {Num, same}

  abbrev pub IsNumeric : Master Num → Type 0
  IsNumeric m =
      let e = m.network.critic in
      (same e.error_x e.error_x ≡ true) × (same e.error_y e.error_y ≡ true)

module _ (P : Platform) (laws : Laws P) where
  open P use {Num}

  -- The errors after a tick, if they are numbers.
  pub control-ErrorsFit :
      (t : ℕ) (m : Master Num)
      → IsNumeric P (control P t m).0
      → ErrorsFit P laws (control P t m).0.network.critic
  unfolding control update_error move send_err
  control-ErrorsFit t m (hx, hy) = (clamped-IsWithin P laws _ hx, clamped-IsWithin P laws _ hy)

  pub to_uint-coordinate : (v : ℤ) → IsCoordinate v → to_uint v < 256
  to_uint-coordinate v h = ground arith

  -- The first half of `update`.
  control-MasterFits :
      (t : ℕ) {m : Master Num}
      → MasterFits m
      → IsNumeric P (control P t m).0
      → MasterFits (control P t m).0 × All IsKept (control P t m).1
  unfolding control update_error move send_err send_norm_motor_command
  control-MasterFits t {m} f h =
      let b = IsValid-bounds f.tracker in
      let e = control-ErrorsFit t m h in
      let g1 = update_error P m.tracker.x_pos m.tracker.y_pos t m.network in
      let (n', seed') = Activity.noise P g1.seed in
      let fits =
        error_fields-Fits P laws (to_uint m.tracker.x_pos) (to_uint m.tracker.y_pos)
          (record g1 { n = n'; seed = seed' }) (to_uint-coordinate m.tracker.x_pos b.0)
          (to_uint-coordinate m.tracker.y_pos b.1) e in
      (
        record {
          tracker = f.tracker;
          rings = normalize_ball_params-RingsFit P m.tracker.x_pos m.tracker.y_pos t f.rings;
          v_x_fits = f.v_x_fits;
          v_y_fits = f.v_y_fits;
          theta_fits = f.theta_fits;
          psi_fits = f.psi_fits;
          counter_fits = omega arith;
        },
        (
          not-IsKept motors_key _ is_update-motors_key,
          (not-IsKept _ _ (is_update-pack_error fits), tt),
        ),
      )

  -- What `update` has done before it decides on saving.
  abbrev controlled : ℕ → Master Num → Master Num × List Effect
  controlled t m = if is_unbalanced m.state then control P t m else (m, [])

  update-network : (t : ℕ) (m : Master Num) → (update P t m).0.network ≡ (controlled t m).0.network
  unfolding update
  update-network t m =
      let (m1, sent) = controlled t m in
      if-keeps (λ (r : Master Num × List Effect). r.0.network ≡ m1.network)
        (is_balanced m1.state || (not (is_saved m1.state) && t % save_step == 0)) _ _ refl refl

  controlled-MasterFits :
      (t : ℕ) {m : Master Num}
      → MasterFits m
      → IsNumeric P (controlled t m).0
      → MasterFits (controlled t m).0 × All IsKept (controlled t m).1
  controlled-MasterFits t {m} f h = elim (Bool-cases (is_unbalanced m.state)) [
    | inl on ↦ rw on (control-MasterFits t f (rw on at h))
    | inr off ↦ rw off (f, tt)
  ]

  saved-MasterFits : {m : Master Num} → MasterFits m → MasterFits (record m { state = saved })
  saved-MasterFits f = record {
    tracker = f.tracker;
    rings = f.rings;
    v_x_fits = f.v_x_fits;
    v_y_fits = f.v_y_fits;
    theta_fits = f.theta_fits;
    psi_fits = f.psi_fits;
    counter_fits = f.counter_fits;
  }

  -- `update` of the master.
  pub update-MasterFits :
      (t : ℕ) {m : Master Num}
      → MasterFits m
      → IsNumeric P (update P t m).0
      → MasterFits (update P t m).0 × All IsKept (update P t m).1
  unfolding update
  update-MasterFits t {m} f h =
      let (m1, sent) = controlled t m in
      let numeric : IsNumeric P (controlled t m).0 = rw (update-network t m) at h in
      let (f', k) = controlled-MasterFits t f numeric in
      if-keeps (λ (r : Master Num × List Effect). MasterFits r.0 × All IsKept r.1)
        (is_balanced m1.state || (not (is_saved m1.state) && t % save_step == 0)) _ _
        (
          saved-MasterFits f',
          All-append IsKept sent (Effect.callback_off Event.timer_tick ∷ []) k (tt, tt),
        )
        (f', k)

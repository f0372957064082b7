-- ===== src/Sequential/Controller/Safety.antt =====
-- What holds of the sequential controller after any callbacks.
use spi_nnaker.Prelude.{ℕ, ◌%◌, List, [], ◌∷◌, ◌||◌, ◌&&◌, not, ◌==◌, if-keeps, ◌≡◌, ◌<◌, All}
use spi_nnaker.Prelude.Int.{pos}
use spi_nnaker.Platform.{Platform}
use spi_nnaker.Device.{Effect}
use spi_nnaker.Track.Valid.{IsValid, start-IsValid, compute_pos_at-IsValid}
use spi_nnaker.Sequential.Controller.Keys.{event_x-IsCoordinate, event_y-IsCoordinate}
use spi_nnaker.Sequential.Sizes.{ArraysFit}
use spi_nnaker.Sequential.Init.Sizes.{initial-ArraysFit, init_network-ArraysFit}
use spi_nnaker.Sequential.Learning
use spi_nnaker.Network
use spi_nnaker.Sequential.Globals.{n_mfm}
use spi_nnaker.Sequential.Init.{initial, center_index}
use spi_nnaker.Sequential.Init.Centers.{placed, center_index-placed, init_network-n}
use spi_nnaker.Sequential.Learning.Sizes.{
  mfm-ArraysFit, update_a-ArraysFit, update_v-ArraysFit, update_error-ArraysFit,
}
use spi_nnaker.Sequential.Controller.{
  Controller, at_start, is_unbalanced, is_balanced, control, finish, update, camera_event, event_x,
  event_y, event_polarity, c_main, save_step,
}
use spi_nnaker.Sequential.Controller.Machine.{Call, tick, camera, after}

pub record IsSafe {N : Type 0} (c : Controller N) : Type 0 where
  pub tracker : IsValid c.tracker
  pub network : ArraysFit c.network

module _ (P : Platform) where
  open P use {Num}

  control-IsSafe : (t : ℕ) {c : Controller Num} → IsSafe c → IsSafe (control P t c).0
  unfolding control
  control-IsSafe t {c} s =
      let g0 = Learning.mfm P c.network in
      let g1 = Learning.update_a P g0 in
      let a1 = update_a-ArraysFit P g0 (mfm-ArraysFit P c.network s.network) in
      let a2 = update_error-ArraysFit P c.tracker.x_pos c.tracker.y_pos t g1 a1 in
      record { tracker = s.tracker; network = update_v-ArraysFit P _ a2 }

  finish-IsSafe : (t : ℕ) {c : Controller Num} → IsSafe c → IsSafe (finish P t c).0
  unfolding finish
  finish-IsSafe t {c} s =
      if-keeps (λ (r : Controller Num × List Effect). IsSafe r.0)
        (is_balanced c.state || t % save_step == 0) _ _
        (record { tracker = s.tracker; network = s.network }) s

  update-IsSafe : (t : ℕ) {c : Controller Num} → IsSafe c → IsSafe (update P t c).0
  unfolding update
  update-IsSafe t {c} s = finish-IsSafe t (
      if-keeps (λ (r : Controller Num × List Effect). IsSafe r.0) (is_unbalanced c.state) _ _
        (control-IsSafe t s) s)

  camera_event-IsSafe :
      (t key : ℕ) {c : Controller Num} → IsSafe c → IsSafe (camera_event P t key c)
  unfolding camera_event
  camera_event-IsSafe t key {c} s =
      let v =
        compute_pos_at-IsValid P (pos (event_x key)) (pos (event_y key)) t c.old_time
          (event_x-IsCoordinate key) (event_y-IsCoordinate key) s.tracker in
      if-keeps IsSafe (event_polarity key == 1 && not (t == 0)) _ _
        (record { tracker = v; network = s.network }) s

  c_main-IsSafe : IsSafe (c_main P (at_start P)).0
  unfolding c_main
  c_main-IsSafe = record {
    tracker = start-IsValid;
    network = init_network-ArraysFit P 0 _ (initial-ArraysFit P);
  }

  after-IsSafe : (calls : List Call) {c : Controller Num} → IsSafe c → IsSafe (after P calls c)
  after-IsSafe [] s = s
  after-IsSafe (tick t ∷ calls) s = after-IsSafe calls (update-IsSafe t s)
  after-IsSafe (camera t key ∷ calls) s = after-IsSafe calls (camera_event-IsSafe t key s)

  c_main-n : (c_main P (at_start P)).0.network.n ≡ Network.center_of P 0 0
  unfolding c_main
  c_main-n = init_network-n P 0 (initial P)

  -- One write of the start misses its array: `init_MFM` of core 0 of chip 0 leaves that core's centre in `n`,
  -- which `init_network` has cleared; the writes of the 63 other cores are inside `center`. After the start,
  -- whatever the timer and the camera call in whatever order, every array of the network has its size, the
  -- ring indices are inside, and the tracker is valid.
  pub started-IsSafe :
      (calls : List Call)
      → ((c_main P (at_start P)).0.network.n ≡ Network.center_of P 0 0)
        × All (λ (p : ℕ × ℕ). center_index p.0 p.1 < n_mfm) placed
        × IsSafe (after P calls (c_main P (at_start P)).0)
  started-IsSafe calls = (c_main-n, center_index-placed, after-IsSafe calls c_main-IsSafe)

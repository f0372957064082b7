-- ===== src/Sequential/Controller.antt =====
-- sequential/BallController.c: the camera event, the timer event and the start of the program.
pub mod Machine
pub mod Stops
pub mod Keys
pub mod Safety
use spi_nnaker.Prelude.{
  ℕ, ◌/◌, ◌%◌, ◌^◌, bit_and, Bool, true, false, ◌&&◌, ◌||◌, not, List, [], ◌∷◌, ◌++◌, if◌then◌else◌,
  ◌==◌,
}
use spi_nnaker.Prelude.Int.{ℤ, pos, negsuc}
use spi_nnaker.Platform.{Platform}
use spi_nnaker.Track.{Tracker, start, compute_pos_at}
use spi_nnaker.Device
use spi_nnaker.Device.{Effect, Event, Handler, banner, start_devices}
use spi_nnaker.Device.Routes
use spi_nnaker.Sequential.Globals.{State, unbalanced, balanced, saved, Globals}
use spi_nnaker.Sequential.Init
use spi_nnaker.Sequential.Learning

abbrev pub save_step : ℕ
save_step = 5000

-- `TICK_TIME`
abbrev pub tick_time : ℕ
tick_time = 100_000

-- The globals of the two files.
pub record Controller (N : Type 0) : Type 0 where
  pub tracker : Tracker
  pub old_time : ℤ
  pub state : State
  pub network : Globals N

abbrev pub is_unbalanced : State → Bool
is_unbalanced State.unbalanced = true
is_unbalanced _ = false

abbrev pub is_balanced : State → Bool
is_balanced State.balanced = true
is_balanced _ = false

-- The fields of a camera event's key.
unfoldable pub event_y : ℕ → ℕ
event_y key = bit_and key 0x7f

unfoldable pub event_x : ℕ → ℕ
event_x key = bit_and (key / 2 ^ 8) 0x7f

unfoldable pub event_polarity : ℕ → ℕ
event_polarity key = bit_and (key / 2 ^ 7) 0x01

module _ (P : Platform) where
  open P use {Num}

  -- The values of the globals before `c_main`.
  abbrev pub at_start : Controller Num
  at_start = record {
    tracker = start;
    old_time = negsuc 0;
    state = unbalanced;
    network = Init.initial P;
  }

  -- The first half of `update`: the networks, while the ball is not balanced.
  unfoldable pub control : ℕ → Controller Num → Controller Num × List Effect
  control sim_time c =
      let g1 = Learning.update_a P (Learning.mfm P c.network) in
      let (state', sent) = Learning.move P sim_time g1 in
      let g2 = Learning.update_error P c.tracker.x_pos c.tracker.y_pos sim_time g1 in
      (record c { state = state'; network = Learning.update_v P g2 }, sent)

  -- The second half: saving.
  unfoldable pub finish : ℕ → Controller Num → Controller Num × List Effect
  finish sim_time c =
      if is_balanced c.state || sim_time % save_step == 0
      then (
        record c { state = saved },
        Init.save P c.network ++ (Effect.callback_off Event.timer_tick ∷ []),
      )
      else (c, [])

  unfoldable pub update : ℕ → Controller Num → Controller Num × List Effect
  unfolding control finish
  update sim_time c =
      let (c1, sent) = if is_unbalanced c.state then control sim_time c else (c, []) in
      let (c2, effects) = finish sim_time c1 in (c2, sent ++ effects)

  -- `sim_time` is what `spin1_get_simulation_time()` returns.
  unfoldable pub camera_event : ℕ → ℕ → Controller Num → Controller Num
  camera_event sim_time key c =
      let x_cur = pos (event_x key) in
      let y_cur = pos (event_y key) in
      let (tracker', old_time') = compute_pos_at P x_cur y_cur sim_time (c.tracker, c.old_time) in
      if event_polarity key == 1 && not (sim_time == 0)
      then record c { tracker = tracker'; old_time = old_time' }
      else c

  unfoldable pub c_main : Controller Num → Controller Num × List Effect
  c_main c = (
    record c { network = Init.init_network P 0 c.network },
    Effect.print banner
        ∷ Effect.set_timer_tick tick_time
        ∷ (Routes.init_io
            ++ (start_devices
                ++ (Effect.callback_on Event.mc_packet_received Handler.camera_event 1
                    ∷ Effect.callback_on Event.timer_tick Handler.update 1
                    ∷ Effect.start_simulation
                    ∷ []))),
  )

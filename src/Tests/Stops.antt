-- ===== src/Tests/Stops.antt =====
-- Runs of the two controllers until they have saved.
use mathlib.Core.List.{Memᴰ}
use spi_nnaker.Prelude.{ℕ, zero, suc, ◌≡◌, refl, inr, List, [], ◌∷◌, arith, All}
use spi_nnaker.Prelude.Int.{ℤ}
use spi_nnaker.Platform.Fixed.{fixed}
use spi_nnaker.Track.{start}
use spi_nnaker.Device.{Effect, Event}
use spi_nnaker.Sequential.Globals.{unbalanced, saved}
use spi_nnaker.Sequential.Controller.Machine.{after}
use spi_nnaker.Sequential.Controller.Machine as Seq
use spi_nnaker.Sequential.Controller.Stops.{effects, controller_stops}
use spi_nnaker.Sequential.Controller.Stops
use spi_nnaker.Parallel.Master.{Master}
use spi_nnaker.Parallel.Messages.{unpack_update}
use spi_nnaker.Parallel.Master.Stops.{IsInside, Call, tick, packet, master_stops}
use spi_nnaker.Parallel.Master.Stops as Par
use spi_nnaker.Tests.Data.{controller, parallel}

-- `n` ticks from time `t` on, with a camera event after each.
seq_calls : ℕ → ℕ → List Seq.Call
seq_calls zero t = []
seq_calls (suc n) t = Seq.Call.tick t ∷ Seq.Call.camera t 0x4081 ∷ seq_calls n (suc t)

seq_calls_ok : (n t : ℕ) → Stops.TicksFrom t (seq_calls n t) × (Stops.ticks (seq_calls n t) ≡ n)
unfolding seq_calls
seq_calls_ok zero t = (tt, refl)
seq_calls_ok (suc n) t = let (a, b) = seq_calls_ok n (suc t) in ((refl, a), omega (arith, b))

controller_stops_example :
    ((after fixed (seq_calls 5000 1) controller).state ≡ saved)
    × Memᴰ (Effect.callback_off Event.timer_tick) (effects fixed (seq_calls 5000 1) controller)
controller_stops_example =
    controller_stops fixed (seq_calls 5000 1) 1 controller refl (seq_calls_ok 5000 1).0
      (omega (arith, (seq_calls_ok 5000 1).1))

-- `n` ticks from time `t` on, with the update of core 3 of chip 0 after each.
par_calls : ℕ → ℕ → List Call
par_calls zero t = []
par_calls (suc n) t = tick t ∷ packet t 0x4020_0000 5 ∷ par_calls n (suc t)

update-IsInside : (t : ℕ) → IsInside (packet t 0x4020_0000 5)
unfolding unpack_update
update-IsInside t = inr (omega arith)

par_calls_ok :
    (n t : ℕ)
    → All IsInside (par_calls n t)
      × Par.TicksFrom t (par_calls n t)
      × (Par.ticks (par_calls n t) ≡ n)
unfolding par_calls
par_calls_ok zero t = (tt, tt, refl)
par_calls_ok (suc n) t =
    let (i, a, b) = par_calls_ok n (suc t) in
    ((tt, (update-IsInside t, i)), (refl, a), omega (arith, b))

abbrev master : Master ℤ
master = record { tracker = start; state = unbalanced; sim_count = 1; network = parallel }

master_stops_example : Par.RunsToEnd fixed (par_calls 2000 1) master 1
master_stops_example =
    master_stops fixed (par_calls 2000 1) 1 master refl (par_calls_ok 2000 1).0
      (par_calls_ok 2000 1).1 (omega (arith, (par_calls_ok 2000 1).2))

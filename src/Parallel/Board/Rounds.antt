-- ===== src/Parallel/Board/Rounds.antt =====
-- Many rounds of the parallel version, by the calls of `update`, `eventNode` and `eventMaster` alone: in
-- each the master ticks, every node hears its message once, and until the next tick the answers arrive
-- in some order with the events of the camera anywhere between them. Beside it the specification, a
-- function that has no order.
pub mod Interleave
pub mod Keeps
pub mod Sent
pub mod InStep
pub mod Boot
pub mod Agree
use mathlib.Core.List.{Memᴰ, Permᴰ}
use spi_nnaker.Prelude.{
  ℕ, ◌≡◌, true, not, ◌&&◌, some, List, [], ◌∷◌, ◌++◌, map, ◌==◌, if◌then◌else◌,
}
use spi_nnaker.Prelude.Int.{pos, to_uint}
use spi_nnaker.Platform.{Platform}
use spi_nnaker.Track.{compute_pos}
use spi_nnaker.Device.{Effect, send_mc}
use spi_nnaker.Sequential.Controller.{event_x, event_y, event_polarity}
use spi_nnaker.Parallel.Messages.{Packet, is_error}
use spi_nnaker.Parallel.Node.{Node, event_node}
use spi_nnaker.Parallel.Master.{Master, update_error, move, update, event_master}
use spi_nnaker.Parallel.Board.Round.{message, taught}
use spi_nnaker.Parallel.Board.Gather.{Answer, inform_all}
use spi_nnaker.Parallel.Board.Tick.{all_taught}

-- The master and the nodes.
pub record Team (N : Type 0) : Type 0 where
  pub master : Master N
  pub nodes : List (Node N)

-- An event of the camera, with its time.
pub record Camera : Type 0 where
  pub time : ℕ
  pub key : ℕ

-- The time of a tick, and the camera's events until the next one.
pub record Input : Type 0 where
  pub time : ℕ
  pub cameras : List Camera

-- The nodes, with the time of the tick.
abbrev pub at_time : {N : Type 0} → ℕ → List (Node N) → List (Answer N)
at_time t nodes = map (λ s. (t, s)) nodes

module _ (P : Platform) where
  open P use {Num}

  -- The nodes on a packet, and what they send.
  abbrev pub told : Packet → Node Num → Node Num
  told p s = (event_node P p.key p.payload s).0

  abbrev pub replies : Packet → List (Node Num) → List Effect
  replies p [] = []
  replies p (s ∷ nodes) = (event_node P p.key p.payload s).1 ++ replies p nodes

  -- The master between two ticks: the camera's events and the packets of two lists, merged anyhow, each
  -- packet at a time of its own.
  pub data Between : List Camera → List Effect → Master Num → Master Num → Type 0 where
    quiet : {m : Master Num} → Between [] [] m m
    camera :
        (c : Camera) {cameras : List Camera} {sent : List Effect} {m m1 m' : Master Num}
        → event_master P c.time c.key 0 m ≡ some m1
        → Between cameras sent m1 m'
        → Between (c ∷ cameras) sent m m'
    reply :
        (time key payload : ℕ) {cameras : List Camera} {sent : List Effect} {m m1 m' : Master Num}
        → event_master P time key payload m ≡ some m1
        → Between cameras sent m1 m'
        → Between cameras (send_mc key payload ∷ sent) m m'

  -- The rounds of a list of ticks: the master sends an error, every node hears it, and what the nodes
  -- send arrives in an order of its own.
  pub data Rounds : List Input → Team Num → Team Num → Type 0 where
    done : {s : Team Num} → Rounds [] s s
    tick :
        (input : Input) (p : Packet) {arrived : List Effect} {inputs : List Input} {s s' : Team Num}
        {m : Master Num}
        → Memᴰ (send_mc p.key p.payload) (update P input.time s.master).1
        → is_error p.key ≡ true
        → Permᴰ (replies p s.nodes) arrived
        → Between input.cameras arrived (update P input.time s.master).0 m
        → Rounds inputs (record { master = m; nodes = map (told p) s.nodes }) s'
        → Rounds (input ∷ inputs) s s'

  -- The message of a tick.
  abbrev pub sent_at : ℕ → Master Num → Packet
  sent_at t m =
      let g = (move P (update_error P m.tracker.x_pos m.tracker.y_pos t m.network)).0 in
      message P (to_uint m.tracker.x_pos) (to_uint m.tracker.y_pos) g

  -- The camera's events move the master's tracker and nothing else.
  abbrev pub looked : Camera → Master Num → Master Num
  looked c m = record m {
    tracker =
        if event_polarity c.key == 1 && not (c.time == 0)
        then compute_pos P (pos (event_x c.key)) (pos (event_y c.key)) m.tracker
        else m.tracker;
  }

  abbrev pub look_all : List Camera → Master Num → Master Num
  look_all [] m = m
  look_all (c ∷ cameras) m = look_all cameras (looked c m)

  -- The specification: the nodes learn, what they have learned is written, one after the other in the
  -- order of the list, and then the camera's events are looked at.
  abbrev pub after_tick : Input → Team Num → Team Num
  after_tick input s =
      let t = input.time in
      let p = sent_at t s.master in
      let informed = inform_all P (all_taught P p (at_time t s.nodes)) (update P t s.master).0 in
      record { master = look_all input.cameras informed; nodes = map (taught P p) s.nodes }

  abbrev pub after_all : List Input → Team Num → Team Num
  after_all [] s = s
  after_all (input ∷ inputs) s = after_all inputs (after_tick input s)

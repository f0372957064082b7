-- ===== src/Parallel/Board.antt =====
-- The parallel version as a whole: the master and the nodes of parallel/BallController.c, interleaved
-- in any order. A packet that was sent may reach any core, any number of times, at any later time, or
-- never.
pub mod MasterArrays
pub mod NodeArrays
pub mod Safety
pub mod Router
pub mod Routing
pub mod Round
pub mod Gather
pub mod Tick
pub mod Rounds
use mathlib.Core.List.{Memᴰ}
use spi_nnaker.Prelude.{ℕ, ◌^◌, ◌<◌, ◌≡◌, some, List, ◌++◌, if◌then◌else◌, ◌==◌}
use spi_nnaker.Platform.{Platform}
use spi_nnaker.Track.{start}
use spi_nnaker.Device.{Effect, send_mc}
use spi_nnaker.Sequential.Globals.{unbalanced}
use spi_nnaker.Parallel.Node
use spi_nnaker.Parallel.Node.{Node}
use spi_nnaker.Parallel.Master
use spi_nnaker.Parallel.Master.{Master}
use spi_nnaker.Parallel.Start.{initial, c_main}

-- A core of a chip.
abbrev pub Place : Type 0
Place = record { chip : ℕ; core : ℕ }

-- The cores, numbered, and everything they have sent.
pub record Board (N : Type 0) : Type 0 where
  pub master : Master N
  pub nodes : ℕ → Node N
  pub sent : List Effect

abbrev pub replace {ℓ} : {A : Type ℓ} → (ℕ → A) → ℕ → A → ℕ → A
replace f i a j = if i == j then a else f j

module _ (P : Platform) where
  open P use {Num}

  -- Every core after its `c_main`. The master alone sends packets there, those of `startDevices`.
  abbrev pub booted : (ℕ → Place) → Board Num
  booted places = record {
    master = record {
      tracker = start;
      state = unbalanced;
      sim_count = 1;
      network = (c_main P 0 1 (initial P)).0;
    };
    nodes = λ i. record {
      network = (c_main P (places i).chip (places i).core (initial P)).0;
      node_counter = 0;
      sim_count = 1;
    };
    sent = (c_main P 0 1 (initial P)).1;
  }

  -- A callback of one of the cores; the first `n` nodes exist.
  pub data Step (n : ℕ) (b : Board Num) : Board Num → Type 0 where
    -- `update` of the master
    tick :
        (time : ℕ)
        → Step n b (record b {
          master = (Master.update P time b.master).0;
          sent = (Master.update P time b.master).1 ++ b.sent;
        })
    -- `eventMaster`, by an event of the camera
    camera :
        (time key : ℕ) {m : Master Num}
        → key < 2 ^ 16
        → Master.event_master P time key 0 b.master ≡ some m
        → Step n b (record b { master = m })
    -- `eventMaster`, by a packet
    to_master :
        (time key payload : ℕ) {m : Master Num}
        → Memᴰ (send_mc key payload) b.sent
        → Master.event_master P time key payload b.master ≡ some m
        → Step n b (record b { master = m })
    -- `eventNode`
    to_node :
        (i key payload : ℕ)
        → i < n
        → Memᴰ (send_mc key payload) b.sent
        → Step n b (record b {
          nodes = replace b.nodes i (Node.event_node P key payload (b.nodes i)).0;
          sent = (Node.event_node P key payload (b.nodes i)).1 ++ b.sent;
        })

  -- The values that the board is about to scale are numbers: the errors of the master, and the four
  -- products of every node.
  abbrev pub IsNumeric : ℕ → Board Num → Type 0
  IsNumeric n b =
      MasterArrays.IsNumeric P b.master × ((i : ℕ) → i < n → NodeArrays.IsNumeric P (b.nodes i))

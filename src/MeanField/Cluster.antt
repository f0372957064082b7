-- ===== src/MeanField/Cluster.antt =====
-- The cores of runMFM.c together: timer events and packets in any order. A packet that was sent may
-- reach any core, any number of times, at any later time, or never.
pub mod Running
pub mod Round
pub mod Net
use mathlib.Core.List.{Memᴰ}
use spi_nnaker.Prelude.{ℕ, ◌+◌, ◌^◌, ◌≤◌, ◌<◌, ◌≡◌, some, List, [], ◌++◌, if◌then◌else◌, ◌==◌}
use spi_nnaker.Device.{Effect, send_mc}
use spi_nnaker.MeanField.{
  MeanField, m, send_mc_packet_rates, send_mc_packet_angles, process_mc_packet,
}
use spi_nnaker.MeanField.Main.{initial, c_main}

-- The cores by their numbers, and everything that they have sent.
pub record Cluster : Type 0 where
  pub cores : ℕ → MeanField
  pub sent : List Effect

abbrev pub replace : (ℕ → MeanField) → ℕ → MeanField → ℕ → MeanField
replace cores i s j = if i == j then s else cores j

-- Every core of the chip after its `c_main`.
abbrev pub booted : ℕ → Cluster
booted chip = record { cores = λ i. (c_main chip i initial).0; sent = [] }

-- A callback of one of the cores.
pub data Step (c : Cluster) : Cluster → Type 0 where
  -- `send_mc_packet_rates` of a core up to `M`; `core_map` has the cores from 1 on
  rates :
      (i : ℕ)
      → 1 ≤ i
      → i ≤ m
      → Step c (record {
        cores = replace c.cores i (send_mc_packet_rates (c.cores i)).0;
        sent = (send_mc_packet_rates (c.cores i)).1 ++ c.sent;
      })
  -- `send_mc_packet_angles` of the motor core
  angles : Step c (record {
    cores = replace c.cores (m + 1) (send_mc_packet_angles (c.cores (m + 1))).0;
    sent = (send_mc_packet_angles (c.cores (m + 1))).1 ++ c.sent;
  })
  -- `process_mc_packet`, by an event of the camera
  camera :
      (i event : ℕ) {s : MeanField}
      → event < 2 ^ 16
      → process_mc_packet (0x0200_0000 + event) 0 (c.cores i) ≡ some s
      → Step c (record c { cores = replace c.cores i s })
  -- `process_mc_packet`, by a packet
  packet :
      (i key payload : ℕ) {s : MeanField}
      → Memᴰ (send_mc key payload) c.sent
      → process_mc_packet key payload (c.cores i) ≡ some s
      → Step c (record c { cores = replace c.cores i s })

-- The states that the cores of a chip can reach.
pub data Reach (chip : ℕ) : Cluster → Type 0 where
  boot : Reach chip (booted chip)
  next : {c c' : Cluster} → Reach chip c → Step c c' → Reach chip c'

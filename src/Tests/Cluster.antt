-- ===== src/Tests/Cluster.antt =====
-- The cores of runMFM.c after the first tick of core 9.
use mathlib.Core.List.{Memᴰ}
use spi_nnaker.Prelude.{
  ℕ, ◌≡◌, ◌≢◌, none, some, refl, arith, List, [], ◌∷◌, map, get_or, numbers_from,
}
use spi_nnaker.Device.{Effect, send_mc}
use spi_nnaker.MeanField.{process_mc_packet, send_mc_packet_rates}
use spi_nnaker.MeanField.Cluster.{Cluster, booted, Step, Reach, boot, next}
use spi_nnaker.MeanField.{MeanField}
use spi_nnaker.Prelude.Int.{pos}
use spi_nnaker.MeanField.Main.{initial}
use spi_nnaker.MeanField.Cluster.Round.{receive, sent_by, next_rate, rates_exchanged}
use spi_nnaker.MeanField.Cluster.Net.{
  Event, tick, seen, aim, Rounds, net_after, commands, AreCameraKeys,
}
use spi_nnaker.MeanField.Cluster.Net.Boot.{first_net, booted-IsNet}
use spi_nnaker.MeanField.Cluster.Net.Follows.{Rounds-rates}
use spi_nnaker.MeanField.Cluster.Net.Run.{can_round, all_in_range, number_in}
use spi_nnaker.MeanField.Cluster.Running.{IsRunning, Reach-IsRunning, process-ne-none}

ticked : (c : Cluster) × Step (booted 1) c
ticked = (_, Step.rates 9 (omega arith) (omega arith))

ticked-Reach : Reach 1 ticked.0
ticked-Reach = next boot ticked.1

Reach-IsRunning_example : IsRunning ticked.0
Reach-IsRunning_example = Reach-IsRunning 1 ticked-Reach

-- The packet of that tick.
sent_packet : (key : ℕ) × (payload : ℕ) × Memᴰ (send_mc key payload) ticked.0.sent
unfolding send_mc_packet_rates ticked
sent_packet = (_, _, Memᴰ.head refl)

process-ne-none_example : process_mc_packet sent_packet.0 sent_packet.1 (ticked.0.cores 3) ≢ none
process-ne-none_example = process-ne-none 1 3 sent_packet.0 sent_packet.1 ticked-Reach sent_packet.2

-- The rates of all cores after a tick, that of core 3 twice.
abbrev order : List ℕ
order = 3 ∷ numbers_from 1 15

rates_exchanged_example :
    receive (sent_by (booted 1).cores order) initial
    ≡ some (record initial { f_pre = map (next_rate (booted 1).cores) (numbers_from 1 15) })
rates_exchanged_example =
    rates_exchanged (booted 1).cores order initial (λ i lo hi. (Reach-IsRunning 1 boot).cores i)
      ((omega arith, omega arith), all_in_range) (λ i lo hi. Memᴰ.tail (number_in i lo hi)) refl

-- A round, a position of the ball in the corner, another round and a command.
abbrev events : List Event
events = tick ∷ seen 0x0200_1010 ∷ tick ∷ aim ∷ []

keys : AreCameraKeys events
keys = (omega arith, tt)

abbrev run :
    (sent : List Effect) × (cores : ℕ → MeanField) × Rounds events sent (booted 1).cores cores
run = can_round events first_net (booted 1).cores keys (booted-IsNet 1)

Rounds-rates_example :
    ((run.1 9).f ≡ get_or (net_after events first_net).own 8 (pos 0))
    × ((run.1 9).f_pre ≡ (net_after events first_net).heard)
    × ((run.1 9).i_ext ≡ (net_after events first_net).inputs 9)
    × (run.0 ≡ commands events first_net)
Rounds-rates_example =
    Rounds-rates events first_net keys (booted-IsNet 1) run.2 9 (omega arith) (omega arith)

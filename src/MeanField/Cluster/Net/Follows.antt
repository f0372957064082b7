-- ===== src/MeanField/Cluster/Net/Follows.antt =====
-- The cores follow the recurrence.
use spi_nnaker.Prelude.{◌++◌, ℕ, ◌-◌, ◌+◌, ◌≤◌, ◌≡◌, refl, ap₂, ◌∙◌, List, get_or}
use spi_nnaker.Prelude.Int.{pos}
use spi_nnaker.MeanField.{MeanField, m}
use spi_nnaker.MeanField.Cluster.Net.{
  Event, Rounds, Net, next_net, looking_net, aiming_net, command, commands, net_after,
  AreCameraKeys, IsNet,
}
use spi_nnaker.MeanField.Cluster.Net.Tick.{one_round}
use spi_nnaker.Device.{Effect}
use spi_nnaker.MeanField.Cluster.Net.Events.{seen-IsNet, angles_lem, aimed-IsNet}

rounds-IsNet :
    {events : List Event} {sent : List Effect} {cores cores' : ℕ → MeanField}
    → Rounds events sent cores cores'
    → (net : Net) → AreCameraKeys events
    → IsNet net cores
    → IsNet (net_after events net) cores' × (sent ≡ commands events net)
rounds-IsNet Rounds.done net keys h = (h, refl)
rounds-IsNet {cores = cores} (Rounds.round {next = next} orders range every e e' more) net keys h =
    rounds-IsNet more (next_net net) keys (one_round net cores h next orders range every e e')
rounds-IsNet (Rounds.camera key e more) net (high, keys) h =
    rounds-IsNet more (looking_net key net) keys (seen-IsNet key net high h e)
rounds-IsNet {cores = cores} (Rounds.aimed {sent = sent} same e more) net keys h =
    let (last, all_sent) = rounds-IsNet more (aiming_net net) keys (aimed-IsNet net h same e) in
    let sent_now = (angles_lem (cores (m + 1))).0 ∙ ap₂ command h.motor.0 h.motor.1 in
    (last, ap₂ ◌++◌ sent_now all_sent)

-- Whatever the orders, as long as each packet of a round reaches each core at least once: from cores that
-- are the populations of a network and its motor core, after any list of rounds, of positions of the ball
-- with keys above 16 and of ticks of the motor core every population has the rate that the recurrence
-- gives, has heard of the rates of all, and is driven by the positions of the ball; and the motor core has
-- sent, at each of its ticks, the command for the rates that it had heard of, or its rest when its count
-- has reached 30000.
pub Rounds-rates :
    (events : List Event) {sent : List Effect} {cores cores' : ℕ → MeanField} (net : Net)
    → AreCameraKeys events
    → IsNet net cores
    → Rounds events sent cores cores'
    → (i : ℕ) → 1 ≤ i
    → i ≤ m
    → ((cores' i).f ≡ get_or (net_after events net).own (i - 1) (pos 0))
      × ((cores' i).f_pre ≡ (net_after events net).heard)
      × ((cores' i).i_ext ≡ (net_after events net).inputs i)
      × (sent ≡ commands events net)
Rounds-rates events net keys h rounds i lo hi =
    let (last, all_sent) = rounds-IsNet rounds net keys h in
    let p = last.parts i lo hi in (p.rate, p.rates, p.input, all_sent)

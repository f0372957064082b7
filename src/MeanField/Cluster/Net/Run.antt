-- ===== src/MeanField/Cluster/Net/Run.antt =====
-- Rounds of the network that can be run.
use mathlib.Core.List.{Memᴰ}
use native.Mathlib.Decide.{dec_lt}
use spi_nnaker.Prelude.{
  ◌==◌, false, map, if◌then◌else◌, ℕ, zero, suc, ◌+◌, ◌≤◌, ◌<◌, ◌≡◌, refl, some, List, [], ◌∷◌, All,
  arith, numbers_from,
}
use spi_nnaker.MeanField.{send_mc_packet_angles, see, MeanField, m}
use spi_nnaker.MeanField.Cluster.Net.{
  Event, tick, seen, aim, Rounds, Net, next_net, looking_net, aiming_net, ticked, AreCameraKeys,
  IsNet,
}
use spi_nnaker.MeanField.Cluster.Net.Tick.{updated, receive-updated, receive-motor, one_round}
use spi_nnaker.MeanField.Cluster.Round.{next_rate, receive, sent_by}
use spi_nnaker.Device.{Effect}
use spi_nnaker.MeanField.Cluster.Net.Events.{process-see, seen-IsNet, aimed-IsNet}

-- All populations, in their order.
pub all_in_range : All (λ j. (1 ≤ j) × (j ≤ m)) (numbers_from 1 m)
all_in_range = omega arith

number_in_from : (a n j : ℕ) → a ≤ j → j < a + n → Memᴰ j (numbers_from a n)
number_in_from a zero j lo hi = absurd (omega arith)
number_in_from a (suc n) j lo hi = elim (dec_lt a j) [
  | yes above ↦ Memᴰ.tail (number_in_from (suc a) n j (omega arith) (omega arith))
  | no here ↦ Memᴰ.head (omega arith)
]

pub number_in : (j : ℕ) → 1 ≤ j → j ≤ m → Memᴰ j (numbers_from 1 m)
number_in j lo hi = number_in_from 1 m j lo (omega arith)

-- The cores after a round, the motor core's packets in the order of the populations.
gathered : (net : Net) (cores : ℕ → MeanField) → IsNet net cores → ℕ → MeanField
gathered net cores h i =
    if i == m + 1
    then record (cores (m + 1)) { f_pre = map (next_rate cores) (numbers_from 1 m) }
    else updated net cores h i

turned : (ℕ → MeanField) → ℕ → MeanField
turned cores i = if i == m + 1 then (send_mc_packet_angles (cores (m + 1))).0 else cores i

below-ne : (i : ℕ) → i ≤ m → (i == m + 1) ≡ false
below-ne i h = ground arith

-- The rounds can be run: with every packet once, in the order of the populations.
pub can_round :
    (events : List Event) (net : Net) (cores : ℕ → MeanField)
    → AreCameraKeys events
    → IsNet net cores
    → (sent : List Effect) × (cores' : ℕ → MeanField) × Rounds events sent cores cores'
unfolding gathered turned
can_round [] net cores keys h = ([], cores, Rounds.done)
can_round (tick ∷ events) net cores keys h =
    let next = gathered net cores h in
    let order = λ (i : ℕ). numbers_from 1 m in
    let range = λ (i : ℕ). all_in_range in
    let every = λ (i : ℕ). number_in in
    let e : (i : ℕ)
        → 1 ≤ i
        → i ≤ m
        → receive (sent_by cores (numbers_from 1 m)) (ticked (cores i)) ≡ some (next i) =
      λ i lo hi.
        rw (below-ne i hi)
          (receive-updated net cores h i (numbers_from 1 m) lo hi all_in_range number_in) in
    let e' = receive-motor net cores h (numbers_from 1 m) all_in_range number_in in
    let (sent, cores', rounds) =
      can_round events (next_net net) next keys
        (one_round net cores h next order range every e e') in
    (sent, cores', Rounds.round order range every e e' rounds)
can_round (seen key ∷ events) net cores (high, keys) h =
    let e = λ (i : ℕ) (lo : 1 ≤ i) (hi : i ≤ m + 1). process-see key (cores i) high in
    let (sent, cores', rounds) =
      can_round events (looking_net key net) (λ i. see key (cores i)) keys
        (seen-IsNet key net high h e) in
    (sent, cores', Rounds.camera key e rounds)
can_round (aim ∷ events) net cores keys h =
    let same : (i : ℕ) → 1 ≤ i → i ≤ m → turned cores i ≡ cores i =
      λ i lo hi. rw (below-ne i hi) refl in
    let (sent, cores', rounds) =
      can_round events (aiming_net net) (turned cores) keys (aimed-IsNet net h same refl) in
    (_, cores', Rounds.aimed same refl rounds)

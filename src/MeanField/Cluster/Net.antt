-- ===== src/MeanField/Cluster/Net.antt =====
-- The cores of runMFM.c as one network: rounds of ticks and packets, and positions of the ball, against
-- a recurrence on the rates.
pub mod Tick
pub mod Events
pub mod Follows
pub mod Run
pub mod Boot
use mathlib.Core.List.{Memᴰ}
use spi_nnaker.Prelude.{
  ◌++◌, ◌%◌, ◌==◌, bit_and, ◌/◌, ◌^◌, if◌then◌else◌, ℕ, ◌-◌, ◌+◌, ◌≤◌, ◌<◌, ◌≡◌, some, List, [],
  ◌∷◌, map, All, get_or, numbers_from,
}
use spi_nnaker.Prelude.Int.{ℤ, pos, ◌+ℤ◌, ◌-ℤ◌, ◌*ℤ◌, shr_ℤ}
use spi_nnaker.MeanField.{
  process_mc_packet, push_old, drive, is_near, fixed, MeanField, m, summ, if_fct, relax,
  send_mc_packet_rates, send_mc_packet_angles, make_payload, motor_cmd_key,
}
use spi_nnaker.Device.{Effect, send_mc}
use spi_nnaker.MeanField.Main.{couplings}
use spi_nnaker.MeanField.Cluster.Running.{IsCore}
use spi_nnaker.MeanField.Cluster.Round.{receive, sent_by}

abbrev pub ticked : MeanField → MeanField
ticked s = (send_mc_packet_rates s).0

-- What happens to the cores together: a round of ticks and packets, a position of the ball, a tick of the
-- motor core.
pub data Event : Type 0 where
  tick : Event
  seen : ℕ → Event
  aim : Event

-- The populations 1 to 15 and the motor core, with the packets that the motor core sends. In a round every
-- population ticks once, and then the packets of all reach all cores, each at least once, in an order of
-- its own for every core; a packet of the camera reaches all of them.
pub data Rounds : List Event → List Effect → (ℕ → MeanField) → (ℕ → MeanField) → Type 0 where
  done : {cores : ℕ → MeanField} → Rounds [] [] cores cores
  round :
      {events : List Event} {sent : List Effect} {cores next cores' : ℕ → MeanField}
      (orders : ℕ → List ℕ)
      → ((i : ℕ) → All (λ j. (1 ≤ j) × (j ≤ m)) (orders i))
      → ((i j : ℕ) → 1 ≤ j → j ≤ m → Memᴰ j (orders i))
      → ((i : ℕ)
          → 1 ≤ i
          → i ≤ m
          → receive (sent_by cores (orders i)) (ticked (cores i)) ≡ some (next i))
      → receive (sent_by cores (orders (m + 1))) (cores (m + 1)) ≡ some (next (m + 1))
      → Rounds events sent next cores'
      → Rounds (tick ∷ events) sent cores cores'
  camera :
      {events : List Event} {sent : List Effect} {cores next cores' : ℕ → MeanField} (key : ℕ)
      → ((i : ℕ) → 1 ≤ i → i ≤ m + 1 → process_mc_packet key 0 (cores i) ≡ some (next i))
      → Rounds events sent next cores'
      → Rounds (seen key ∷ events) sent cores cores'
  aimed :
      {events : List Event} {sent : List Effect} {cores next cores' : ℕ → MeanField}
      → ((i : ℕ) → 1 ≤ i → i ≤ m → next i ≡ cores i)
      → next (m + 1) ≡ (send_mc_packet_angles (cores (m + 1))).0
      → Rounds events sent next cores'
      → Rounds (aim ∷ events) ((send_mc_packet_angles (cores (m + 1))).1 ++ sent) cores cores'

-- The network: the rates of the populations and those that all of them have heard of, what each is driven
-- with, the positions of the ball, now and before, and the count of the motor core.
pub record Net : Type 0 where
  pub own : List ℤ
  pub heard : List ℤ
  pub inputs : ℕ → ℤ
  pub x_old : List ℕ
  pub y_old : List ℕ
  pub x : ℕ
  pub y : ℕ
  pub count : ℕ

-- The recurrence: the weighted sum of the rates and the input, through the activation, relaxed.
abbrev pub next_own : Net → ℕ → ℤ
next_own net i =
    relax (get_or net.own (i - 1) (pos 0))
      (if_fct (summ (pos 0) (couplings i) net.heard +ℤ net.inputs i))

abbrev pub next_net : Net → Net
next_net net =
    let rates = map (next_own net) (numbers_from 1 m) in record net { own = rates; heard = rates }

-- What population `i` is driven with, by the positions of the ball.
abbrev pub driven : List ℕ → List ℕ → ℕ → ℕ → ℕ → ℤ
driven x_old y_old x y i =
    let v_x = pos x -ℤ pos (get_or x_old 0 0) in
    let v_y = pos y -ℤ pos (get_or y_old 0 0) in
    if is_near x y
    then drive i (fixed 54) (pos 0) x y v_x v_y
    else drive i (fixed 58) (pos 4) x y v_x v_y

abbrev pub looking_net : ℕ → Net → Net
looking_net key net =
    let x_old = push_old net.x_old net.x in
    let y_old = push_old net.y_old net.y in
    let x = bit_and key 0xff00 / 2 ^ 8 in
    let y = bit_and key 0xff in
    record net { inputs = driven x_old y_old x y; x_old = x_old; y_old = y_old; x = x; y = y }

-- The motor core's tick: the command for the rates that it has heard of, or a rest when the count reaches 30000.
abbrev pub command : List ℤ → ℕ → List Effect
command heard count =
    let rate = λ (i : ℕ). get_or heard i (pos 0) in
    let theta = shr_ℤ ((rate 10 -ℤ rate 8 +ℤ fixed 11) *ℤ pos 8) 8 in
    let phi = shr_ℤ ((rate 9 -ℤ rate 11 +ℤ fixed 3) *ℤ pos 8) 8 in
    let rest = send_mc motor_cmd_key (make_payload (pos 0) (pos 300)) in
    if (count + 1) % 2 ^ 32 == 30_000
    then rest ∷ Effect.delay 4_000_000 ∷ rest ∷ []
    else send_mc motor_cmd_key (make_payload theta phi) ∷ []

abbrev pub next_count : ℕ → ℕ
next_count count = if (count + 1) % 2 ^ 32 == 30_000 then 0 else (count + 1) % 2 ^ 32

abbrev pub aiming_net : Net → Net
aiming_net net = record net { count = next_count net.count }

abbrev pub commands : List Event → Net → List Effect
commands [] net = []
commands (tick ∷ events) net = commands events (next_net net)
commands (seen key ∷ events) net = commands events (looking_net key net)
commands (aim ∷ events) net = command net.heard net.count ++ commands events (aiming_net net)

abbrev pub net_after : List Event → Net → Net
net_after [] net = net
net_after (tick ∷ events) net = net_after events (next_net net)
net_after (seen key ∷ events) net = net_after events (looking_net key net)
net_after (aim ∷ events) net = net_after events (aiming_net net)

-- The keys are those of the camera.
abbrev pub AreCameraKeys : List Event → Type 0
AreCameraKeys [] = Unit
AreCameraKeys (tick ∷ events) = AreCameraKeys events
AreCameraKeys (seen key ∷ events) = (m + 1 < key) × AreCameraKeys events
AreCameraKeys (aim ∷ events) = AreCameraKeys events

-- A core is population `i` of the network.
pub record IsPart (net : Net) (i : ℕ) (s : MeanField) : Type 0 where
  pub core : IsCore i s
  pub rate : s.f ≡ get_or net.own (i - 1) (pos 0)
  pub rates : s.f_pre ≡ net.heard
  pub weights : s.j ≡ couplings i
  pub input : s.i_ext ≡ net.inputs i
  pub x_before : s.x_old ≡ net.x_old
  pub y_before : s.y_old ≡ net.y_old
  pub x_now : s.x ≡ net.x
  pub y_now : s.y ≡ net.y

-- The motor core has heard what the populations have.
abbrev pub IsMotor : Net → MeanField → Type 0
IsMotor net s = (s.f_pre ≡ net.heard) × (s.count ≡ net.count)

pub record IsNet (net : Net) (cores : ℕ → MeanField) : Type 0 where
  pub parts : (i : ℕ) → 1 ≤ i → i ≤ m → IsPart net i (cores i)
  pub motor : IsMotor net (cores (m + 1))

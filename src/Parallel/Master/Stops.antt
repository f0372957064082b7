-- ===== src/Parallel/Master/Stops.antt =====
-- How long the master runs: the ticks of the timer in their order, with packets between them.
pub mod Ends
use Ends.{ends, ends-append}
use spi_nnaker.Prelude.{
  ℕ, suc, ◌+◌, ◌*◌, ◌/◌, ◌%◌, ◌≤◌, ◌<◌, ◌≡◌, ◌∙◌, refl, ◌⊎◌, ◌≢◌, inl, inr, true, false, Option,
  none, some, List, [], ◌∷◌, ◌++◌, ◌==◌, arith, ltb, All, if◌then◌else◌, not, ◌&&◌, Bool-cases,
  lt→ltb, if-keeps,
}
use spi_nnaker.Platform.{Platform}
use spi_nnaker.Device.{Effect, Event, send_norm_motor_command, send_motor_command}
use spi_nnaker.Sequential.Globals.{unbalanced, saved}
use spi_nnaker.Sequential.Controller.{event_polarity}
use spi_nnaker.Parallel.Globals.{n_mfm}
use spi_nnaker.Parallel.Messages.{is_update, unpack_update}
use spi_nnaker.Parallel.Master.{
  Master, control, update, move, send_err, rec_upd, event_master, save_step,
}

-- A call of one of the two callbacks: a timer event with its time, or a packet with the time, its key
-- and its payload.
pub data Call : Type 0 where
  tick : ℕ → Call
  packet : ℕ → ℕ → ℕ → Call

-- The timer ticks at `t`, then at `t + 1` and so on.
abbrev pub TicksFrom : ℕ → List Call → Type 0
TicksFrom t [] = Unit
TicksFrom t (tick u ∷ calls) = (u ≡ t) × TicksFrom (suc t) calls
TicksFrom t (packet u key payload ∷ calls) = TicksFrom t calls

abbrev pub ticks : List Call → ℕ
ticks [] = 0
ticks (tick t ∷ calls) = suc (ticks calls)
ticks (packet t key payload ∷ calls) = ticks calls

-- The updates among the packets are for places inside the arrays.
abbrev pub IsInside : Call → Type 0
IsInside (tick t) = Unit
IsInside (packet t key payload) =
    (is_update key ≡ false)
    ⊎ ((unpack_update (record { key = key; payload = payload })).index < n_mfm)

module _ (P : Platform) where
  open P use {Num}

  abbrev before :
      List Effect → Option (Master Num × List Effect) → Option (Master Num × List Effect)
  before sent none = none
  before sent (some (m, es)) = some (m, sent ++ es)

  abbrev onward :
      (Master Num → Option (Master Num × List Effect))
      → Option (Master Num)
      → Option (Master Num × List Effect)
  onward f none = none
  onward f (some m) = f m

  -- The callbacks in the order in which they are called, and their effects. A write outside the arrays is
  -- `none`.
  abbrev pub run : List Call → Master Num → Option (Master Num × List Effect)
  run [] m = some (m, [])
  run (tick t ∷ calls) m = before (update P t m).1 (run calls (update P t m).0)
  run (packet t key payload ∷ calls) m = onward (run calls) (event_master P t key payload m)

  -- The calls go through, end `n` callbacks and leave the master saved.
  pub record RunsToEnd (calls : List Call) (m : Master Num) (n : ℕ) : Type 0 where
    pub last : Master Num
    pub sent : List Effect
    pub goes_through : run calls m ≡ some (last, sent)
    pub is_saved : last.state ≡ saved
    pub ended : ends sent ≡ n

  control-ends :
      (t : ℕ) (m : Master Num)
      → ((control P t m).0.state ≡ unbalanced) × (ends (control P t m).1 ≡ 0)
  unfolding control move send_err send_norm_motor_command send_motor_command
  control-ends t m = (refl, refl)

  update-saved : (t : ℕ) (m : Master Num) → m.state ≡ saved → update P t m ≡ (m, [])
  unfolding update
  update-saved t m h = ground arith

  update-unbalanced :
      (t : ℕ) (m : Master Num)
      → m.state ≡ unbalanced
      → let (m1, sent) = control P t m in
        update P t m ≡ (
          if t % save_step == 0
          then (record m1 { state = saved }, sent ++ (Effect.callback_off Event.timer_tick ∷ []))
          else (m1, sent))
  unfolding update
  update-unbalanced t m h = ground (arith, control-ends t m)

  update_cases :
      (t : ℕ) (m : Master Num)
      → m.state ≡ unbalanced
      → ((t % save_step ≡ 0) × ((update P t m).0.state ≡ saved) × (ends (update P t m).1 ≡ 1))
        ⊎ ((t % save_step ≢ 0)
            × ((update P t m).0.state ≡ unbalanced)
            × (ends (update P t m).1 ≡ 0))
  update_cases t m h = rw (update-unbalanced t m h) (
      ground (
        arith,
        control-ends t m,
        ends-append (control P t m).1 (Effect.callback_off Event.timer_tick ∷ []),
      ))

  inside :
      (t key payload : ℕ)
      → IsInside (packet t key payload)
      → is_update key ≡ true
      → ltb (unpack_update (record { key = key; payload = payload })).index n_mfm ≡ true
  inside t key payload (inl other) h = absurd (ground arith)
  inside t key payload (inr lt) h = lt→ltb _ _ lt

  abbrev Stays : Master Num → Option (Master Num) → Type 0
  Stays m o = (m' : Master Num) × (o ≡ some m') × (m'.state ≡ m.state)

  event_master-state :
      (t key payload : ℕ) (m : Master Num)
      → IsInside (packet t key payload)
      → Stays m (event_master P t key payload m)
  unfolding event_master rec_upd
  event_master-state t key payload m h = elim (Bool-cases (is_update key)) [
    | inl u ↦ rw (u, inside t key payload h u) (_, refl, refl)
    | inr other ↦ rw other (
        if-keeps (Stays m) (event_polarity key == 1 && not (t == 0)) _ _ (_, refl, refl)
          (_, refl, refl))
  ]

  -- A packet before a run that stops.
  packet_first :
      (t key payload : ℕ) (calls : List Call) {m m' : Master Num} {n : ℕ}
      → event_master P t key payload m ≡ some m'
      → RunsToEnd calls m' n
      → RunsToEnd (packet t key payload ∷ calls) m n
  packet_first t key payload calls e r = record {
    last = r.last;
    sent = r.sent;
    goes_through = rw (e, r.goes_through) refl;
    is_saved = r.is_saved;
    ended = r.ended;
  }

  saved_run :
      (calls : List Call) (m : Master Num)
      → m.state ≡ saved
      → All IsInside calls
      → RunsToEnd calls m 0
  saved_run [] m h a = record {
    last = m;
    sent = [];
    goes_through = refl;
    is_saved = h;
    ended = refl;
  }
  saved_run (tick t ∷ calls) m h a =
      let r = saved_run calls m h a.1 in
      record {
        last = r.last;
        sent = r.sent;
        goes_through = rw (update-saved t m h, r.goes_through) refl;
        is_saved = r.is_saved;
        ended = r.ended;
      }
  saved_run (packet t key payload ∷ calls) m h a =
      let (m', e, s) = event_master-state t key payload m a.0 in
      packet_first t key payload calls e (saved_run calls m' (s ∙ h) a.1)

  -- A tick before a run that stops.
  tick_first :
      (t : ℕ) (calls : List Call) (m : Master Num) {i j : ℕ}
      → ends (update P t m).1 ≡ i
      → RunsToEnd calls (update P t m).0 j
      → RunsToEnd (tick t ∷ calls) m (i + j)
  tick_first t calls m e r = record {
    last = r.last;
    sent = (update P t m).1 ++ r.sent;
    goes_through = rw r.goes_through refl;
    is_saved = r.is_saved;
    ended = omega (arith, ends-append (update P t m).1 r.sent, e, r.ended);
  }

  stops_by :
      (calls : List Call) (t k : ℕ) (m : Master Num)
      → m.state ≡ unbalanced
      → All IsInside calls
      → TicksFrom t calls
      → t ≤ k * save_step
      → k * save_step < t + ticks calls
      → RunsToEnd calls m 1
  stops_by [] t k m s a h lo hi = absurd (omega arith)
  stops_by (tick u ∷ calls) t k m s a h lo hi = elim (update_cases u m s) [
    | inl (_, now, one) ↦ tick_first u calls m one (saved_run calls (update P u m).0 now a.1)
    | inr (later, still, zero') ↦
        tick_first u calls m zero'
          (stops_by calls (suc t) k (update P u m).0 still a.1 h.1 (omega arith) (omega arith))
  ]
  stops_by (packet u key payload ∷ calls) t k m s a h lo hi =
      let (m', e, s') = event_master-state u key payload m a.0 in
      packet_first u key payload calls e (stops_by calls t k m' (s' ∙ s) a.1 h lo hi)

  -- An unbalanced master, whatever packets with a place inside the arrays come between the ticks, writes
  -- nowhere else and is saved after at most 2000 ticks in a row; it ends a callback exactly once.
  pub master_stops :
      (calls : List Call) (t : ℕ) (m : Master Num)
      → m.state ≡ unbalanced
      → All IsInside calls
      → TicksFrom t calls
      → save_step ≤ ticks calls
      → RunsToEnd calls m 1
  master_stops calls t m s a h n =
      stops_by calls t ((t + 1999) / save_step) m s a h (omega arith) (omega arith)

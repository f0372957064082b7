-- ===== src/Parallel/Board/Rounds/Agree.antt =====
-- The rounds against their specification.
use mathlib.Core.List.{Memᴰ, Permᴰ}
use mathlib.Core.List.Permᴰ
use spi_nnaker.Prelude.{◌≡◌, refl, sym, ap, subst, ◌↔◌, ◌∙◌, true, List, [], ◌∷◌, map, All}
use spi_nnaker.Prelude.Perms.{perm-map}
use spi_nnaker.Platform.{Platform, Laws}
use spi_nnaker.Device.{Effect, send_mc}
use spi_nnaker.Parallel.Messages.{Packet, is_error}
use spi_nnaker.Parallel.Master.{Master, control, update}
use spi_nnaker.Parallel.Master.Fault.{ProductsAreNumbers}
use spi_nnaker.Parallel.Board.MasterArrays.{IsNumeric}
use spi_nnaker.Parallel.Board.Round.{taught}
use spi_nnaker.Parallel.Board.Gather.{inform_all-perm, All-perm}
use spi_nnaker.Parallel.Board.Tick.{IsListening, all_taught, all_taught-IsReady, all_taught-apart}
use spi_nnaker.Parallel.Board.Rounds.{
  Team, Input, at_time, sent_at, told, replies, Between, Rounds, look_all, after_tick, after_all,
}
use spi_nnaker.Parallel.Board.Rounds.Interleave.{
  AreCameraKeys, sent_by, Between-eq, Between-look_all,
}
use spi_nnaker.Parallel.Board.Rounds.Sent.{
  control-sends, update-sends, only_error, answers_apart, replies-eq, told-taught,
}
use spi_nnaker.Parallel.Board.Rounds.InStep.{
  IsInStep, IsOrdinary, update-network, message-is_error, all_listening, after_tick-IsInStep,
}

module _ (P : Platform) (laws : Laws P) where
  open P use {Num}

  -- No tick but the last is one at which the master saves.
  abbrev pub GoesOn : Input → List Input → Type 0
  GoesOn input [] = Unit
  GoesOn input (next ∷ inputs) = IsOrdinary input.time

  -- At each tick, along the specification: the master does not save unless it is the last one, the values
  -- to be scaled are numbers, and the camera's events have keys of 16 bits.
  abbrev pub CanRun : List Input → Team Num → Type 0
  CanRun [] s = Unit
  CanRun (input ∷ inputs) s =
      let p = sent_at P input.time s.master in
      GoesOn input inputs
      × IsNumeric P (update P input.time s.master).0
      × All (λ n. ProductsAreNumbers P laws (taught P p n).network) s.nodes
      × AreCameraKeys input.cameras
      × CanRun inputs (after_tick P input s)

  -- What the rounds that are left need.
  abbrev IsReadyFor : List Input → Team Num → Type 0
  IsReadyFor [] s = Unit
  IsReadyFor (input ∷ inputs) s = IsInStep s

  IsInStep-IsReadyFor : (inputs : List Input) {s : Team Num} → IsInStep s → IsReadyFor inputs s
  IsInStep-IsReadyFor [] h = tt
  IsInStep-IsReadyFor (input ∷ inputs) h = h

  after_tick-IsReadyFor :
      (input : Input) (inputs : List Input) (s : Team Num)
      → IsInStep s
      → CanRun (input ∷ inputs) s
      → IsReadyFor inputs (after_tick P input s)
  after_tick-IsReadyFor input [] s h can = tt
  after_tick-IsReadyFor input (next ∷ inputs) s h can =
      after_tick-IsInStep P laws input s h can.0 can.1

  module _ (input : Input) (s : Team Num) (h : IsInStep s) (inputs : List Input)
      (can : CanRun (input ∷ inputs) s) where
    heard :
        (is_error (sent_at P input.time s.master).key ≡ true)
        × All (IsListening P laws (sent_at P input.time s.master)) (at_time input.time s.nodes)
    heard =
        let (_, numeric, numbers, _, _) = can in
        let t = input.time in
        let e = update-network P t s.master h.balancing in
        let numeric' : IsNumeric P (control P t s.master).0 = rw e at numeric in
        (
          message-is_error P laws t s.master h.master numeric',
          all_listening P laws t s.master h.master numeric' s.nodes h.nodes numbers,
        )

    message_sent :
        (p : Packet)
        → is_error p.key ≡ true
        → Memᴰ (send_mc p.key p.payload) (update P input.time s.master).1
          ↔ (p ≡ sent_at P input.time s.master)
    message_sent p kind =
        let t = input.time in
        let (fewer, more) = update-sends P t s.master h.balancing p.key p.payload in
        (
          λ w. only_error P t s.master p (fewer w) kind,
          λ same. more (rw same (control-sends P t s.master)),
        )

    -- A tick can end as the specification says.
    can_tick :
        {s' : Team Num} → Rounds P inputs (after_tick P input s) s' → Rounds P (input ∷ inputs) s s'
    can_tick {s'} more =
        let (_, _, _, small, _) = can in
        let (kind, listening) = heard in
        let t = input.time in
        let p = sent_at P t s.master in
        let answers = all_taught P p (at_time t s.nodes) in
        let ready = all_taught-IsReady P laws p (at_time t s.nodes) listening in
        let m1 = (update P t s.master).0 in
        Rounds.tick input p ((message_sent p kind).1 refl) kind (Permᴰ.refl (replies P p s.nodes))
          (subst (λ sent. Between P input.cameras sent m1 (after_tick P input s).master)
            (replies-eq P laws p kind t s.nodes listening)
            (Between-look_all P laws answers input.cameras m1 ready small))
          (subst
            (λ nodes.
              Rounds P inputs (record { master = (after_tick P input s).master; nodes = nodes }) s')
            (sym (told-taught P laws p kind t s.nodes listening)) more)

    -- It can end in no other way.
    must_tick :
        (p : Packet) {arrived : List Effect} {m : Master Num}
        → p ≡ sent_at P input.time s.master
        → Permᴰ (replies P p s.nodes) arrived
        → Between P input.cameras arrived (update P input.time s.master).0 m
        → record { master = m; nodes = map (told P p) s.nodes } ≡ after_tick P input s
    must_tick p' {arrived} e order between =
        let (_, _, _, small, _) = can in
        let (kind, listening) = heard in
        let t = input.time in
        let p = sent_at P t s.master in
        let answers = all_taught P p (at_time t s.nodes) in
        let ready = all_taught-IsReady P laws p (at_time t s.nodes) listening in
        let apart = all_taught-apart P laws p (at_time t s.nodes) (answers_apart P t h.apart) in
        let (others, q, same) =
          perm-map (sent_by P) (subst (λ p. Permᴰ (replies P p s.nodes) arrived) e order) answers
            (replies-eq P laws p kind t s.nodes listening) in
        let merged =
          Between-eq P laws between others same (All-perm P laws q ready) small
          ∙ ap (look_all P input.cameras)
              (sym (inform_all-perm P laws q ready apart (update P t s.master).0)) in
        let taught_all =
          ap (λ p. map (told P p) s.nodes) e ∙ told-taught P laws p kind t s.nodes listening in
        λ i. record { master = merged i; nodes = taught_all i }

  can_run :
      (inputs : List Input) (s : Team Num)
      → IsReadyFor inputs s
      → CanRun inputs s
      → Rounds P inputs s (after_all P inputs s)
  can_run [] s h can = Rounds.done
  can_run (input ∷ inputs) s h can =
      can_tick input s h inputs can
        (can_run inputs (after_tick P input s) (after_tick-IsReadyFor input inputs s h can) can.4)

  Rounds-eq-after_all :
      {inputs : List Input} {s s' : Team Num}
      → Rounds P inputs s s'
      → IsReadyFor inputs s
      → CanRun inputs s
      → s' ≡ after_all P inputs s
  Rounds-eq-after_all Rounds.done h can = refl
  Rounds-eq-after_all {s = s} {s' = s'}
        (Rounds.tick input p {inputs = inputs} sent kind order between more) h can =
      let e =
        must_tick input s h inputs can p ((message_sent input s h inputs can p kind).0 sent) order
          between in
      let next = after_tick-IsReadyFor input inputs s h can in
      Rounds-eq-after_all more (subst (IsReadyFor inputs) (sym e) next)
        (subst (CanRun inputs) (sym e) can.4)
      ∙ ap (after_all P inputs) e

  -- For a master that balances in a valid state, and nodes that have seen its last message, on different
  -- cores of the board with indices below 59; if no tick but the last is a multiple of 2000, the values to be scaled
  -- at the ticks are numbers and the camera's events have keys of 16 bits: the rounds, in each of which
  -- every node hears the one error that `update` sends, and the answers and the camera's events reach the
  -- master merged in any order, can end in a state exactly if it is that of the specification, where the
  -- answers are written in the order of the nodes and the camera's events come last.
  pub Rounds-iff :
      (inputs : List Input) (s s' : Team Num)
      → IsInStep s
      → CanRun inputs s
      → Rounds P inputs s s' ↔ (s' ≡ after_all P inputs s)
  Rounds-iff inputs s s' h can = (
    λ r. Rounds-eq-after_all r (IsInStep-IsReadyFor inputs h) can,
    λ e. subst (Rounds P inputs s) (sym e) (can_run inputs s (IsInStep-IsReadyFor inputs h) can),
  )

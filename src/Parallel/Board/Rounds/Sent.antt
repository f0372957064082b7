-- ===== src/Parallel/Board/Rounds/Sent.antt =====
-- What a tick sends, and what the nodes answer.
use mathlib.Core.List.{Memᴰ, Pairwise}
use mathlib.Core.List.Pairwise
use mathlib.Core.HLevel.{¬_prop}
use spi_nnaker.Prelude.{
  ℕ, ◌%◌, ◌≡◌, refl, ap, ap₂, ◌↔◌, true, false, not, ◌&&◌, ◌||◌, ◌==◌, if-keeps, List, [], ◌∷◌,
  ◌++◌, map, All,
}
use spi_nnaker.Platform.{Platform, Laws}
use spi_nnaker.Sequential.Controller.{is_unbalanced, is_balanced}
use spi_nnaker.Device.{
  Effect, Event, send_mc, motors_key, send_norm_motor_command, send_motor_command,
}
use spi_nnaker.Parallel.Messages.{Packet, is_error}
use spi_nnaker.Parallel.Node.{Node}
use spi_nnaker.Parallel.Master.{is_saved, save_step, update, Master, move, send_err, control}
use spi_nnaker.Parallel.Board.Round.{taught, answered}
use spi_nnaker.Parallel.Board.Gather.{AnswersAreApart}
use spi_nnaker.Parallel.Board.Gather.Slots.{AreApart}
use spi_nnaker.Parallel.Board.Tick.{IsListening, all_taught}
use spi_nnaker.Parallel.Board.Rounds.{at_time, sent_at, told, replies}
use spi_nnaker.Parallel.Board.Rounds.Interleave.{sent_by}

is_error-motors_key : is_error motors_key ≡ false
unfolding is_error
is_error-motors_key = refl

before_end :
    (key payload : ℕ) (sent : List Effect)
    → Memᴰ (send_mc key payload) (sent ++ (Effect.callback_off Event.timer_tick ∷ []))
    → Memᴰ (send_mc key payload) sent
before_end key payload [] (Memᴰ.head e) = cc
before_end key payload [] (Memᴰ.tail w) = elim w [ ]
before_end key payload (x ∷ sent) (Memᴰ.head e) = Memᴰ.head e
before_end key payload (x ∷ sent) (Memᴰ.tail w) = Memᴰ.tail (before_end key payload sent w)

more_sent :
    (key payload : ℕ) (sent : List Effect)
    → Memᴰ (send_mc key payload) sent
    → Memᴰ (send_mc key payload) (sent ++ (Effect.callback_off Event.timer_tick ∷ []))
more_sent key payload [] w = elim w [ ]
more_sent key payload (x ∷ sent) (Memᴰ.head e) = Memᴰ.head e
more_sent key payload (x ∷ sent) (Memᴰ.tail w) = Memᴰ.tail (more_sent key payload sent w)

packet_before_end :
    (key payload : ℕ) (sent : List Effect)
    → Memᴰ (send_mc key payload) (sent ++ (Effect.callback_off Event.timer_tick ∷ []))
      ↔ Memᴰ (send_mc key payload) sent
packet_before_end key payload sent = (before_end key payload sent, more_sent key payload sent)

module _ (P : Platform) where
  open P use {Num}

  -- `update` sends its message.
  pub control-sends :
      (t : ℕ) (m : Master Num)
      → Memᴰ (send_mc (sent_at P t m).key (sent_at P t m).payload) (control P t m).1
  unfolding control send_err send_norm_motor_command send_motor_command
  control-sends t m = Memᴰ.tail (Memᴰ.head refl)

  -- The end of the ticks, which `update` may add, is no packet.
  pub update-sends :
      (t : ℕ) (m : Master Num)
      → is_unbalanced m.state ≡ true
      → (key payload : ℕ)
      → Memᴰ (send_mc key payload) (update P t m).1 ↔ Memᴰ (send_mc key payload) (control P t m).1
  unfolding update
  update-sends t m on key payload =
      let (m1, sent) = control P t m in
      rw on (
        if-keeps
          (λ (r : Master Num × List Effect).
            Memᴰ (send_mc key payload) r.1 ↔ Memᴰ (send_mc key payload) sent)
          (is_balanced m1.state || (not (is_saved m1.state) && t % save_step == 0)) _ _
          (packet_before_end key payload sent) ((λ w. w), (λ w. w)))

  -- It is the only error that it sends.
  pub only_error :
      (t : ℕ) (m : Master Num) (p : Packet)
      → Memᴰ (send_mc p.key p.payload) (control P t m).1
      → is_error p.key ≡ true
      → p ≡ sent_at P t m
  unfolding control move send_err send_norm_motor_command send_motor_command
  only_error t m p (Memᴰ.head e) kind =
      let k : p.key ≡ motors_key = cc in cc (ap is_error k, is_error-motors_key)
  only_error t m p (Memᴰ.tail (Memᴰ.head e)) kind =
      let k : p.key ≡ (sent_at P t m).key = cc in
      let l : p.payload ≡ (sent_at P t m).payload = cc in λ i. record { key = k i; payload = l i }
  only_error t m p (Memᴰ.tail (Memᴰ.tail w)) kind = elim w [ ]

  pub answers_apart :
      (t : ℕ) {nodes : List (Node Num)}
      → Pairwise AreApart nodes
      → Pairwise AnswersAreApart (at_time t nodes)
  answers_apart t {nodes} h =
      Pairwise.map' {S = AnswersAreApart} (λ s. (t, s)) (λ a b. ¬_prop) {l = nodes} h

  module _ (laws : Laws P) (p : Packet) (kind : is_error p.key ≡ true) where
    -- What the listening nodes send, and what becomes of them.
    pub replies-eq :
        (t : ℕ) (nodes : List (Node Num))
        → All (IsListening P laws p) (at_time t nodes)
        → map (sent_by P) (all_taught P p (at_time t nodes)) ≡ replies P p nodes
    replies-eq t [] h = refl
    replies-eq t (s ∷ nodes) (h, hs) =
        rw (answered P p s kind h.0)
          (ap (◌∷◌ (sent_by P (t, taught P p s))) (replies-eq t nodes hs))

    pub told-taught :
        (t : ℕ) (nodes : List (Node Num))
        → All (IsListening P laws p) (at_time t nodes)
        → map (told P p) nodes ≡ map (taught P p) nodes
    told-taught t [] h = refl
    told-taught t (s ∷ nodes) (h, hs) =
        ap₂ ◌∷◌ (ap (λ r. r.0) (answered P p s kind h.0)) (told-taught t nodes hs)

-- ===== src/Parallel/Board/Tick.antt =====
-- A whole round of the parallel version: the master's message to many nodes, what each of them learns
-- and answers, and the master when all their updates have arrived.
use mathlib.Core.HLevel.{¬_prop}
use mathlib.Core.List.{Permᴰ, Pairwise}
use mathlib.Core.List.Pairwise
use spi_nnaker.Prelude.{
  ℕ, ◌/◌, ◌^◌, ◌<◌, ◌≡◌, refl, sym, ◌∙◌, ◌≢◌, bit_and, some, List, [], ◌∷◌, map, true, All,
}
use spi_nnaker.Platform.{Platform, Laws}
use spi_nnaker.Device.{send_mc}
use spi_nnaker.Parallel.Globals.{Globals}
use spi_nnaker.Parallel.Messages.{Packet, is_error}
use spi_nnaker.Parallel.Messages.Kinds.{is_error-pack_error}
use spi_nnaker.Parallel.Population
use spi_nnaker.Parallel.Node.{Node, learn, rec_err, event_node}
use spi_nnaker.Parallel.Master.{Master, send_err}
use spi_nnaker.Parallel.Master.Stream.{ErrorsFit, error_fields-Fits}
use spi_nnaker.Parallel.Board.Round.{message, taught, answer, answered}
use spi_nnaker.Parallel.Board.Gather.{
  Answer, AnswersAreApart, IsReady, expected, deliver, deliver-slots, deliver-perm,
}
use spi_nnaker.Parallel.Board.Gather.Slots.{HasRoom, slot}

module _ (P : Platform) where
  open P use {Num}

  -- Learning does not move a node to another core.
  taught-place :
      (p : Packet) (s : Node Num)
      → ((taught P p s).network.chip_id ≡ s.network.chip_id)
        × ((taught P p s).network.core_id ≡ s.network.core_id)
  unfolding learn rec_err Population.mfm Population.update_a Population.update_v
  taught-place p s = (refl, refl)

  -- The nodes after the message, with the times at which their updates arrive.
  abbrev pub all_taught : Packet → List (Answer Num) → List (Answer Num)
  all_taught p nodes = map (λ (a : Answer Num). (a.0, taught P p a.1)) nodes

  -- The node's `eventNode` on the message leaves it taught, and sends its answer.
  abbrev pub AnswersWhatItLearns : Packet → Answer Num → Type 0
  AnswersWhatItLearns p a =
      let q = answer P (taught P p a.1) in
      event_node P p.key p.payload a.1 ≡ (taught P p a.1, send_mc q.key q.payload ∷ [])

  module _ (laws : Laws P) where
    -- The node has not seen the counter of the message, and is ready to answer once it has learned.
    abbrev pub IsListening : Packet → Answer Num → Type 0
    IsListening p a =
        (bit_and (p.key / 2 ^ 20) 0xff ≢ a.1.node_counter) × IsReady P laws (a.0, taught P p a.1)

    pub all_taught-IsReady :
        (p : Packet) (nodes : List (Answer Num))
        → All (IsListening p) nodes
        → All (IsReady P laws) (all_taught p nodes)
    all_taught-IsReady p [] h = tt
    all_taught-IsReady p (a ∷ nodes) (ready, h) = (ready.1, all_taught-IsReady p nodes h)

    pub all_taught-apart :
        (p : Packet) (nodes : List (Answer Num))
        → Pairwise AnswersAreApart nodes
        → Pairwise AnswersAreApart (all_taught p nodes)
    unfolding learn rec_err Population.mfm Population.update_a Population.update_v
    all_taught-apart p nodes h =
        Pairwise.map' {S = AnswersAreApart} (λ (a : Answer Num). (a.0, taught P p a.1))
          (λ a b. ¬_prop) {l = nodes} h

    all_answer :
        (p : Packet) (nodes : List (Answer Num))
        → is_error p.key ≡ true
        → All (IsListening p) nodes
        → All (AnswersWhatItLearns p) nodes
    all_answer p [] kind h = tt
    all_answer p (a ∷ nodes) kind (listens, h) =
        (answered P p a.1 kind listens.0, all_answer p nodes kind h)

    -- A master at a position below 256 with its errors between -1 and 1 sends one message. Each node that
    -- has not seen its counter, runs on a core of its own with a place in the master's arrays and sends
    -- numbers, learns from it and answers. In whatever order the answers arrive, no write misses the
    -- arrays, and every place then holds what the node of that index has learned, or what it held before
    -- if there is none.
    pub whole_round :
        (x y : ℕ) (g : Globals Num) (nodes arrived : List (Answer Num)) (m : Master Num)
        → x < 256
        → y < 256
        → ErrorsFit P laws g.critic
        → All (IsListening (message P x y g)) nodes
        → Pairwise AnswersAreApart nodes
        → Permᴰ (all_taught (message P x y g) nodes) arrived
        → HasRoom m
        → let p = message P x y g in
          ((send_err P x y g).1 ≡ send_mc p.key p.payload ∷ [])
          × All (AnswersWhatItLearns p) nodes
          × (m' : Master Num) × (deliver P arrived m ≡ some m')
          × ((j : ℕ) → slot P j m' ≡ expected P (all_taught p nodes) j m)
    unfolding send_err
    whole_round x y g nodes arrived m hx hy e listening apart order room =
        let p = message P x y g in
        let is_err = is_error-pack_error (error_fields-Fits P laws x y g hx hy e) in
        let ready = all_taught-IsReady p nodes listening in
        let apart' = all_taught-apart p nodes apart in
        let (m', all_stored, slots) =
          deliver-slots P laws (all_taught p nodes) m ready apart' room in
        (
          refl,
          all_answer p nodes is_err listening,
          m',
          sym (deliver-perm P laws m order ready apart') ∙ all_stored,
          slots,
        )

-- ===== src/Parallel/Board/Rounds/InStep.antt =====
-- A master and nodes that are in step, and what a tick, the answers and the camera leave of it.
use mathlib.Core.HLevel.{¬_prop}
use mathlib.Core.List.{Pairwise}
use mathlib.Core.List.Pairwise
use spi_nnaker.Prelude.{
  ℕ, ◌+◌, ◌/◌, ◌%◌, ◌^◌, ◌<◌, ◌≡◌, refl, sym, ap, ◌∙◌, bit_and, true, false, List, [], ◌∷◌, map,
  ◌==◌, not, ◌&&◌, ◌||◌, All, arith, if-keeps, subst,
}
use spi_nnaker.Prelude.Int.{to_uint}
use spi_nnaker.Platform.{Platform, Laws}
use spi_nnaker.Track.Valid.{IsValid-bounds}
use spi_nnaker.Device.{Effect}
use spi_nnaker.Sequential.Controller.{is_unbalanced, is_balanced}
use spi_nnaker.Parallel.Globals.{n_mfm}
use spi_nnaker.Parallel.Messages.{Packet, is_error, unpack_error}
use spi_nnaker.Parallel.Messages.Errors
use spi_nnaker.Parallel.Messages.Errors.{unpack_error-pack_error}
use spi_nnaker.Parallel.Messages.Kinds.{is_error-pack_error}
use spi_nnaker.Parallel.Population
use spi_nnaker.Parallel.Node.{Node, learn, rec_err}
use spi_nnaker.Parallel.Master.{
  Master, is_saved, save_step, update_error, move, error_fields, send_err, control, update,
}
use spi_nnaker.Parallel.Master.Stream.{error_fields-Fits}
use spi_nnaker.Parallel.Master.Fault.{ProductsAreNumbers}
use spi_nnaker.Parallel.Board.MasterArrays.{
  IsNumeric, MasterFits, update-MasterFits, control-ErrorsFit, to_uint-coordinate,
}
use spi_nnaker.Parallel.Board.Round.{taught}
use spi_nnaker.Parallel.Board.Gather.Slots.{IsOnBoard, AreApart, index}
use spi_nnaker.Parallel.Board.Tick.{IsListening, all_taught}
use spi_nnaker.Parallel.Board.Rounds.Keeps.{Stays, inform_all-MasterFits, look_all-MasterFits}
use spi_nnaker.Parallel.Board.Rounds.{Team, Input, at_time, sent_at, after_tick}

-- The node runs on a core of the board, has a place in the master's arrays, and has seen the master's
-- last message.
abbrev pub Follows : {N : Type 0} → Master N → Node N → Type 0
Follows m s = (s.node_counter ≡ m.network.counter) × IsOnBoard s × (index s < n_mfm)

-- The master balances, its arrays are whole, and the nodes follow it from cores of their own.
pub record IsInStep {N : Type 0} (s : Team N) : Type 0 where
  pub balancing : is_unbalanced s.master.state ≡ true
  pub master : MasterFits s.master
  pub nodes : All (Follows s.master) s.nodes
  pub apart : Pairwise AreApart s.nodes

-- The tick is none of those at which the master saves.
abbrev pub IsOrdinary : ℕ → Type 0
IsOrdinary t = (t % save_step == 0) ≡ false

module _ (P : Platform) where
  open P use {Num}

  -- `update` is its first half then.
  pub update-eq-control :
      (t : ℕ) (m : Master Num)
      → is_unbalanced m.state ≡ true
      → IsOrdinary t
      → update P t m ≡ control P t m
  unfolding update control move
  update-eq-control t m on ordinary = rw (on, ordinary) refl

  -- At every tick it leaves the network as its first half does.
  pub update-network :
      (t : ℕ) (m : Master Num)
      → is_unbalanced m.state ≡ true
      → (update P t m).0.network ≡ (control P t m).0.network
  unfolding update
  update-network t m on =
      let m1 = (control P t m).0 in
      rw on (
        if-keeps (λ (r : Master Num × List Effect). r.0.network ≡ m1.network)
          (is_balanced m1.state || (not (is_saved m1.state) && t % save_step == 0)) _ _ refl refl)

module _ (P : Platform) (laws : Laws P) where
  open P use {Num}

  module _ (t : ℕ) (m : Master Num) (fits : MasterFits m)
      (numeric : IsNumeric P (control P t m).0) where
    -- The fields of the message fit.
    message_fits :
        let g = (move P (update_error P m.tracker.x_pos m.tracker.y_pos t m.network)).0 in
        Errors.Fits (error_fields P (to_uint m.tracker.x_pos) (to_uint m.tracker.y_pos) g)
    unfolding control send_err
    message_fits =
        let g = (move P (update_error P m.tracker.x_pos m.tracker.y_pos t m.network)).0 in
        let b = IsValid-bounds fits.tracker in
        error_fields-Fits P laws (to_uint m.tracker.x_pos) (to_uint m.tracker.y_pos) g
          (to_uint-coordinate P laws m.tracker.x_pos b.0)
          (to_uint-coordinate P laws m.tracker.y_pos b.1) (control-ErrorsFit P laws t m numeric)

    pub message-is_error : is_error (sent_at P t m).key ≡ true
    message-is_error = is_error-pack_error message_fits

    -- The message carries the master's next count.
    count_of_message : bit_and ((sent_at P t m).key / 2 ^ 20) 0xff ≡ (m.network.counter + 1) % 50
    unfolding update_error move error_fields unpack_error
    count_of_message = ap (λ r. r.count) (unpack_error-pack_error message_fits)

    -- A node that follows the master is listening, and follows it again when it has learned.
    taught-IsListening :
        (s : Node Num)
        → Follows m s
        → ProductsAreNumbers P laws (taught P (sent_at P t m) s).network
        → IsListening P laws (sent_at P t m) (t, s)
    unfolding learn rec_err Population.mfm Population.update_a Population.update_v
    taught-IsListening s (same, board, room) numbers =
        let c = count_of_message in
        let below = fits.counter_fits in (λ e. omega (arith, c, e), (numbers, board, room))

    taught-Follows :
        (s : Node Num) → Follows m s → Follows (control P t m).0 (taught P (sent_at P t m) s)
    unfolding learn rec_err Population.mfm Population.update_a Population.update_v control
        update_error move send_err
    taught-Follows s (same, board, room) = (count_of_message, board, room)

    pub all_listening :
        (nodes : List (Node Num))
        → All (Follows m) nodes
        → All (λ s. ProductsAreNumbers P laws (taught P (sent_at P t m) s).network) nodes
        → All (IsListening P laws (sent_at P t m)) (at_time t nodes)
    all_listening [] f h = tt
    all_listening (s ∷ nodes) (f, fs) (h, hs) =
        (taught-IsListening s f h, all_listening nodes fs hs)

    all_following :
        (nodes : List (Node Num))
        → All (Follows m) nodes
        → All (Follows (control P t m).0) (map (taught P (sent_at P t m)) nodes)
    all_following [] f = tt
    all_following (s ∷ nodes) (f, fs) = (taught-Follows s f, all_following nodes fs)

    control-is_unbalanced : is_unbalanced (control P t m).0.state ≡ true
    unfolding control move
    control-is_unbalanced = refl

  all_following-Stays :
      (m m' : Master Num) (nodes : List (Node Num))
      → Stays P m m'
      → All (Follows m) nodes
      → All (Follows m') nodes
  all_following-Stays m m' [] stays f = tt
  all_following-Stays m m' (s ∷ nodes) stays (f, fs) =
      ((f.0 ∙ sym stays.1, f.1, f.2), all_following-Stays m m' nodes stays fs)

  pub nodes_apart :
      (p : Packet) {nodes : List (Node Num)}
      → Pairwise AreApart nodes
      → Pairwise AreApart (map (taught P p) nodes)
  unfolding learn rec_err Population.mfm Population.update_a Population.update_v
  nodes_apart p {nodes} h = Pairwise.map' {S = AreApart} (taught P p) (λ a b. ¬_prop) {l = nodes} h

  -- After a tick, the answers to it and any events of the camera they are in step again.
  pub after_tick-IsInStep :
      (input : Input) (s : Team Num)
      → IsInStep s
      → IsOrdinary input.time
      → IsNumeric P (update P input.time s.master).0
      → IsInStep (after_tick P input s)
  after_tick-IsInStep input s h ordinary numeric =
      let t = input.time in
      let p = sent_at P t s.master in
      let e = update-eq-control P t s.master h.balancing ordinary in
      let numeric' : IsNumeric P (control P t s.master).0 =
        subst (λ (r : Master Num × List Effect). IsNumeric P r.0) e numeric in
      let (fits, _) = update-MasterFits P laws t h.master numeric in
      let answers = all_taught P p (at_time t s.nodes) in
      let (fits', stays) = inform_all-MasterFits P answers fits in
      let (fits'', stays') = look_all-MasterFits P input.cameras fits' in
      let same = ap (λ (r : Master Num × List Effect). r.0) e in
      let m' = (after_tick P input s).master in
      let all_stays : Stays P (control P t s.master).0 m' = (
        stays'.0 ∙ stays.0 ∙ ap (λ (m : Master Num). m.state) same,
        stays'.1 ∙ stays.1 ∙ ap (λ (m : Master Num). m.network.counter) same,
      ) in
      record {
        balancing =
            ap is_unbalanced all_stays.0 ∙ control-is_unbalanced t s.master h.master numeric';
        master = fits'';
        nodes =
            all_following-Stays (control P t s.master).0 m' (map (taught P p) s.nodes) all_stays
              (all_following t s.master h.master numeric' s.nodes h.nodes);
        apart = nodes_apart p h.apart;
      }

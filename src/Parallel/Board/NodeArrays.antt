-- ===== src/Parallel/Board/NodeArrays.antt =====
-- A node of the board: its arrays, and the index under which it sends.
use spi_nnaker.Prelude.{
  ℕ, ◌+◌, ◌/◌, ◌^◌, ◌<◌, ◌≡◌, bit_and, true, not, ◌&&◌, Bool-cases, inl, inr, ◌==◌, arith, All, ap,
  length,
}
use spi_nnaker.Prelude.Int.{pos}
use spi_nnaker.Platform.{Platform, Laws}
use spi_nnaker.Network.Rings.{RingsFit}
use spi_nnaker.Parallel.Motion.Agrees.{normalize_ball_params-RingsFit}
use spi_nnaker.Device.{Effect, send_mc}
use spi_nnaker.Parallel.Globals.{n_mfm, Globals}
use spi_nnaker.Parallel.Messages.{is_update, is_error, unpack_update, unpack_error}
use spi_nnaker.Parallel.Messages.Updates.{unpack_update-pack_update}
use spi_nnaker.Parallel.Population
use spi_nnaker.Parallel.Node.{Node, node_index, rec_err, learn, event_node, send_upd, update_fields}
use spi_nnaker.Parallel.Master.Fault.{ProductsAreNumbers, update_fields-Fits}

-- A packet that `rec_upd` can take: if it is an update, its index is one of the master's arrays.
abbrev pub IsKept : Effect → Type 0
IsKept (send_mc key payload) =
    is_update key ≡ true → (unpack_update (record { key = key; payload = payload })).index < n_mfm
IsKept _ = Unit

-- The node of a place, its arrays intact.
pub record NodeFits {N : Type 0} (chip core : ℕ) (s : Node N) : Type 0 where
  pub at_chip : s.network.chip_id ≡ chip
  pub at_core : s.network.core_id ≡ core
  pub rings : RingsFit s.network.ball
  pub v_x_fits : length s.network.v_x_array ≡ n_mfm
  pub v_y_fits : length s.network.v_y_array ≡ n_mfm
  pub theta_fits : length s.network.a_theta_array ≡ n_mfm
  pub psi_fits : length s.network.a_psi_array ≡ n_mfm

module _ (P : Platform) where
  open P use {Num, same, single, ◌⊗◌}

  infixl 70 ◌⊗◌
  abbrev pub IsNumeric : Node Num → Type 0
  IsNumeric s =
      let p = s.network.population in
      (same (single (p.w_v_x ⊗ p.f_x)) (single (p.w_v_x ⊗ p.f_x)) ≡ true)
      × (same (single (p.w_v_y ⊗ p.f_y)) (single (p.w_v_y ⊗ p.f_y)) ≡ true)
      × (same (single (p.w_a_theta ⊗ p.f_x)) (single (p.w_a_theta ⊗ p.f_x)) ≡ true)
      × (same (single (p.w_a_psi ⊗ p.f_y)) (single (p.w_a_psi ⊗ p.f_y)) ≡ true)

  learn-NodeFits :
      (key payload : ℕ) {chip core : ℕ} {s : Node Num}
      → NodeFits chip core s
      → NodeFits chip core (learn P key payload s).0
  unfolding learn rec_err Population.mfm Population.update_a Population.update_v
  learn-NodeFits key payload {s} f =
      let e = unpack_error (record { key = key; payload = payload }) in
      record {
        at_chip = f.at_chip;
        at_core = f.at_core;
        rings =
            normalize_ball_params-RingsFit P (pos e.x_pos) (pos e.y_pos) (s.sim_count + 1) f.rings;
        v_x_fits = f.v_x_fits;
        v_y_fits = f.v_y_fits;
        theta_fits = f.theta_fits;
        psi_fits = f.psi_fits;
      }

module _ (P : Platform) (laws : Laws P) where
  open P use {Num}

  index_of :
      (g : Globals Num) → node_index g.chip_id g.core_id < n_mfm → (update_fields P g).index < n_mfm
  unfolding update_fields
  index_of g k = k

  -- What a node sends can be kept, when its index is below 59.
  send_upd-IsKept :
      (g : Globals Num)
      → ProductsAreNumbers P laws g
      → node_index g.chip_id g.core_id < n_mfm
      → All IsKept (send_upd P g)
  unfolding send_upd
  send_upd-IsKept g h k =
      let e = unpack_update-pack_update (update_fields-Fits P laws g h (omega arith)) in
      (λ kind. rw (ap (λ u. u.index) e) (index_of g k), tt)

  learn-IsKept :
      (key payload : ℕ) {chip core : ℕ} {s : Node Num}
      → node_index chip core < n_mfm
      → NodeFits chip core s
      → IsNumeric P (learn P key payload s).0
      → NodeFits chip core (learn P key payload s).0 × All IsKept (learn P key payload s).1
  unfolding learn
  learn-IsKept key payload {s} k f h =
      let f' = learn-NodeFits P key payload f in
      (f', send_upd-IsKept (learn P key payload s).0.network h (rw (f'.at_chip, f'.at_core) k))

  -- `eventNode` keeps the arrays of the node, and sends what the master can keep.
  pub event_node-NodeFits :
      (key payload : ℕ) {chip core : ℕ} {s : Node Num}
      → node_index chip core < n_mfm
      → NodeFits chip core s
      → IsNumeric P (event_node P key payload s).0
      → NodeFits chip core (event_node P key payload s).0
        × All IsKept (event_node P key payload s).1
  unfolding event_node
  event_node-NodeFits key payload {chip} {core} {s} k f h =
      let fresh = is_error key && not (bit_and (key / 2 ^ 20) 0xff == s.node_counter) in
      elim (Bool-cases fresh) [
        | inl acts ↦ rw acts (learn-IsKept key payload k f (rw acts at h))
        | inr passes ↦ rw passes (f, tt)
      ]

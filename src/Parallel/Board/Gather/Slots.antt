-- ===== src/Parallel/Board/Gather/Slots.antt =====
-- The places of the master's arrays that a node's update is written to.
use spi_nnaker.Prelude.{
  ℕ, suc, ◌+◌, ◌-◌, ◌*◌, ◌/◌, ◌%◌, ◌≤◌, ◌<◌, ◌≡◌, sym, ap₂, ◌∙◌, ◌≢◌, arith, length, get_or,
  length-set, get_or-set_self, get_or-set_ne, set_comm,
}
use spi_nnaker.Platform.{Platform}
use spi_nnaker.Parallel.Globals.{n_mfm}
use spi_nnaker.Parallel.Node.{Node, node_index, received, update_fields}
use spi_nnaker.Parallel.Master.{Master}
use spi_nnaker.Parallel.Master.Fault.{node_index-injective}
use spi_nnaker.Parallel.Board.Round.{informed}

-- The core on which a node runs is one of the 64 of the board.
abbrev pub IsOnBoard : {N : Type 0} → Node N → Type 0
IsOnBoard s =
    (s.network.chip_id / 256 < 2)
    × (s.network.chip_id % 256 < 2)
    × (1 ≤ s.network.core_id)
    × (s.network.core_id ≤ 16)

-- Two nodes run on different cores.
abbrev pub AreApart : {N : Type 0} → Node N → Node N → Type 0
AreApart s s' =
    ¬ ((s.network.chip_id ≡ s'.network.chip_id) × (s.network.core_id ≡ s'.network.core_id))

abbrev pub index : {N : Type 0} → Node N → ℕ
index s = node_index s.network.chip_id s.network.core_id

-- The index of a core by its chip's row and column.
index_of_place :
    (chip core : ℕ)
    → 1 ≤ core
    → node_index chip core ≡ node_index (chip / 256 * 256 + chip % 256) (suc (core - 1))
index_of_place chip core h = ap₂ node_index (omega arith) (omega arith)

-- Different cores send under different indices.
pub apart_index :
    {N : Type 0} (s s' : Node N) → IsOnBoard s → IsOnBoard s' → AreApart s s' → index s ≢ index s'
apart_index s s' (hy, hx, hc, hc') (hy', hx', hd, hd') apart e =
    let same_place =
      node_index-injective (s.network.chip_id / 256) (s.network.chip_id % 256)
        (s.network.core_id - 1) (s'.network.chip_id / 256) (s'.network.chip_id % 256)
        (s'.network.core_id - 1) (hy, hx, omega arith) (hy', hx', omega arith)
        (sym (index_of_place s.network.chip_id s.network.core_id hc)
          ∙ e
          ∙ index_of_place s'.network.chip_id s'.network.core_id hd) in
    apart (omega (arith, same_place), omega (arith, same_place))

-- Room for every node in the arrays that `rec_upd` writes.
abbrev pub HasRoom : {N : Type 0} → Master N → Type 0
HasRoom m =
    (length m.network.v_x_array ≡ n_mfm)
    × (length m.network.a_theta_array ≡ n_mfm)
    × (length m.network.a_psi_array ≡ n_mfm)

module _ (P : Platform) where
  open P use {Num, decimal}

  -- What the master holds of index `j`, and what a node's update says.
  abbrev pub slot : ℕ → Master Num → Num × Num × Num
  slot j m = (
    get_or m.network.v_x_array j (decimal 0 0),
    get_or m.network.a_theta_array j (decimal 0 0),
    get_or m.network.a_psi_array j (decimal 0 0),
  )

  abbrev pub told : Node Num → Num × Num × Num
  told s =
      let u = update_fields P s.network in
      (
        received P u.negative_v_x u.size_v_x (decimal 1000 0),
        received P u.negative_theta u.size_theta (decimal 10000 0),
        received P u.negative_psi u.size_psi (decimal 10000 0),
      )

  -- A write for one node is read back at its index, and nowhere else.
  pub slot-informed_self :
      (s : Node Num) (m : Master Num)
      → index s < n_mfm
      → HasRoom m
      → slot (index s) (informed P s m) ≡ told s
  unfolding update_fields
  slot-informed_self s m h (hv, ht, hp) =
      let (v, theta, psi) = told s in
      λ i. (
        get_or-set_self m.network.v_x_array (index s) v (decimal 0 0) (omega arith) i,
        get_or-set_self m.network.a_theta_array (index s) theta (decimal 0 0) (omega arith) i,
        get_or-set_self m.network.a_psi_array (index s) psi (decimal 0 0) (omega arith) i,
      )

  pub slot-informed_ne :
      (s : Node Num) (m : Master Num) (j : ℕ) → index s ≢ j → slot j (informed P s m) ≡ slot j m
  unfolding update_fields
  slot-informed_ne s m j ne =
      let (v, theta, psi) = told s in
      λ i. (
        get_or-set_ne m.network.v_x_array v (decimal 0 0) ne i,
        get_or-set_ne m.network.a_theta_array theta (decimal 0 0) ne i,
        get_or-set_ne m.network.a_psi_array psi (decimal 0 0) ne i,
      )

  pub informed-HasRoom : (s : Node Num) (m : Master Num) → HasRoom m → HasRoom (informed P s m)
  informed-HasRoom s m (hv, ht, hp) =
      let u = update_fields P s.network in
      (
        length-set m.network.v_x_array u.index _ ∙ hv,
        length-set m.network.a_theta_array u.index _ ∙ ht,
        length-set m.network.a_psi_array u.index _ ∙ hp,
      )

  -- Two nodes' updates can come in either order.
  pub informed_comm :
      (s s' : Node Num) (m : Master Num)
      → index s ≢ index s'
      → informed P s' (informed P s m) ≡ informed P s (informed P s' m)
  unfolding update_fields
  informed_comm s s' m ne =
      let (v, theta, psi) = told s in
      let (v', theta', psi') = told s' in
      λ i. record m {
        network = record (m.network) {
          v_x_array = set_comm m.network.v_x_array v v' ne i;
          a_theta_array = set_comm m.network.a_theta_array theta theta' ne i;
          a_psi_array = set_comm m.network.a_psi_array psi psi' ne i;
        };
      }

-- ===== src/Parallel/Board/Round.antt =====
-- One round of the parallel version: from the master's error to a node, and from its update back.
use spi_nnaker.Prelude.{
  ℕ, ◌/◌, ◌^◌, ◌<◌, ◌≡◌, refl, ◌≢◌, bit_and, true, some, [], ◌∷◌, All, arith, set, lt→ltb,
}
use spi_nnaker.Platform.{Platform, Laws}
use spi_nnaker.Device.{send_mc}
use spi_nnaker.Device.Routes.{init_chip_io}
use spi_nnaker.Parallel.Globals.{n_mfm, Globals}
use spi_nnaker.Parallel.Messages.{Packet, pack_error, pack_update, is_error}
use spi_nnaker.Parallel.Messages.Kinds.{kinds_apart, is_update-pack_update}
use spi_nnaker.Parallel.Node.{
  Node, node_index, received, update_fields, send_upd, learn, event_node,
}
use spi_nnaker.Parallel.Node.Once.{accepted}
use spi_nnaker.Parallel.Master.{Master, send_err, error_fields, event_master}
use spi_nnaker.Parallel.Master.Stream.{ErrorsFit, error_fields-Fits}
use spi_nnaker.Parallel.Master.Fault.{ProductsAreNumbers, update_fields-Fits, rec_upd-send_upd}
use spi_nnaker.Parallel.Board.Router.{Router, RouterLaws}
use spi_nnaker.Parallel.Board.Routing.{Core, node_cores, error_arrives, update_arrives}

module _ (P : Platform) where
  open P use {Num, decimal}

  -- The master's message at a position, and what a node answers.
  abbrev pub message : ℕ → ℕ → Globals Num → Packet
  message x y g = pack_error (error_fields P x y g)

  abbrev pub taught : Packet → Node Num → Node Num
  taught p s = (learn P p.key p.payload s).0

  abbrev pub answer : Node Num → Packet
  answer s = pack_update (update_fields P s.network)

  -- The master with a node's values in its arrays.
  abbrev pub informed : Node Num → Master Num → Master Num
  informed s m =
      let u = update_fields P s.network in
      let g = m.network in
      record m {
        network = record g {
          v_x_array =
              set g.v_x_array u.index (received P u.negative_v_x u.size_v_x (decimal 1000 0));
          a_theta_array =
              set g.a_theta_array u.index
                (received P u.negative_theta u.size_theta (decimal 10000 0));
          a_psi_array =
              set g.a_psi_array u.index (received P u.negative_psi u.size_psi (decimal 10000 0));
        };
      }

  pub answered :
      (p : Packet) (s : Node Num)
      → is_error p.key ≡ true
      → bit_and (p.key / 2 ^ 20) 0xff ≢ s.node_counter
      → let q = answer (taught p s) in
        event_node P p.key p.payload s ≡ (taught p s, send_mc q.key q.payload ∷ [])
  unfolding learn send_upd
  answered p s kind fresh = accepted P p s kind fresh

  own_index :
      (s : Node Num)
      → node_index s.network.chip_id s.network.core_id < n_mfm
      → (update_fields P s.network).index < n_mfm
  unfolding update_fields
  own_index s k = k

module _ (P : Platform) (laws : Laws P) where
  open P use {Num}

  -- The master on a node's answer, at any time.
  pub stored :
      (t : ℕ) (s : Node Num) (m : Master Num)
      → ProductsAreNumbers P laws s.network
      → node_index s.network.chip_id s.network.core_id < n_mfm
      → event_master P t (answer P s).key (answer P s).payload m ≡ some (informed P s m)
  unfolding event_master
  stored t s m h k =
      let kind = is_update-pack_update (update_fields-Fits P laws s.network h (omega arith)) in
      let kept_all = (rec_upd-send_upd P laws s.network m.network h (omega arith)).1 in
      rw (kind, kept_all, lt→ltb (update_fields P s.network).index n_mfm (own_index P s k)) refl

module _ (P : Platform) (laws : Laws P) (R : Router) (router_laws : RouterLaws R) where
  open P use {Num}
  open R use {Arrives}

  -- For a master at a position below 256 with its errors between -1 and 1, and a node with another counter
  -- whose products are numbers after learning and whose index is below 59: the master's message
  -- arrives at all nodes, the node learns from it and answers, the answer arrives at the master from each
  -- chip, and the master puts the node's values at the node's index.
  pub round_trip :
      (x y t : ℕ) (g : Globals Num) (s : Node Num) (m : Master Num)
      → x < 256
      → y < 256
      → ErrorsFit P laws g.critic
      → bit_and ((message P x y g).key / 2 ^ 20) 0xff ≢ s.node_counter
      → ProductsAreNumbers P laws (taught P (message P x y g) s).network
      → node_index
          (taught P (message P x y g) s).network.chip_id
          (taught P (message P x y g) s).network.core_id
        < n_mfm
      → let p = message P x y g in
        let s' = taught P p s in
        let q = answer P s' in
        ((send_err P x y g).1 ≡ send_mc p.key p.payload ∷ [])
        × All (λ (c : Core). Arrives init_chip_io 0 p.key c.chip c.number) node_cores
        × (event_node P p.key p.payload s ≡ (s', send_mc q.key q.payload ∷ []))
        × (Arrives init_chip_io 0 q.key 0 1
            × Arrives init_chip_io 1 q.key 0 1
            × Arrives init_chip_io 256 q.key 0 1
            × Arrives init_chip_io 257 q.key 0 1)
        × (event_master P t q.key q.payload m ≡ some (informed P s' m))
  unfolding send_err
  round_trip x y t g s m hx hy e fresh numbers index =
      let p = message P x y g in
      let s' = taught P p s in
      let (is_err, _, is_upd, _) =
        kinds_apart (error_fields-Fits P laws x y g hx hy e)
          (update_fields-Fits P laws s'.network numbers (omega arith)) in
      (
        refl,
        error_arrives R router_laws p.key is_err,
        answered P p s is_err fresh,
        update_arrives R router_laws (answer P s').key is_upd,
        stored P laws t s' m numbers index,
      )

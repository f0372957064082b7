-- ===== src/Parallel/Board/MasterArrays/Packets.antt =====
-- The master on a packet: its arrays stay whole.
use spi_nnaker.Prelude.{
  ℕ, ◌<◌, ◌≡◌, refl, ◌∙◌, not, ◌&&◌, Bool-cases, inl, inr, ◌==◌, length-set, lt→ltb, some, set,
}
use spi_nnaker.Prelude.Int.{pos}
use spi_nnaker.Platform.{Platform, Laws}
use spi_nnaker.Track.{compute_pos}
use spi_nnaker.Track.Valid.{compute_pos-IsValid}
use spi_nnaker.Device.{send_mc}
use spi_nnaker.Sequential.Controller.{event_x, event_y, event_polarity}
use spi_nnaker.Sequential.Controller.Keys.{event_x-IsCoordinate, event_y-IsCoordinate}
use spi_nnaker.Parallel.Globals.{n_mfm, Globals}
use spi_nnaker.Parallel.Messages.{is_update, unpack_update}
use spi_nnaker.Parallel.Master.{Master, rec_upd, event_master}
use spi_nnaker.Parallel.Node.{received}
use spi_nnaker.Parallel.Board.NodeArrays.{IsKept}
use spi_nnaker.Parallel.Board.MasterArrays.{MasterFits}

module _ (P : Platform) (laws : Laws P) where
  open P use {Num}

  -- `rec_upd` of an update that can be kept.
  rec_upd-MasterFits :
      (key payload : ℕ) {m : Master Num}
      → MasterFits m
      → (unpack_update (record { key = key; payload = payload })).index < n_mfm
      → (g : Globals Num) × (rec_upd P key payload m.network ≡ some g)
        × MasterFits (record m { network = g })
  unfolding rec_upd
  rec_upd-MasterFits key payload {m} f h =
      let g = m.network in
      let u = unpack_update (record { key = key; payload = payload }) in
      (
        record g {
          v_x_array =
              set g.v_x_array u.index (received P u.negative_v_x u.size_v_x (P.decimal 1000 0));
          a_theta_array =
              set g.a_theta_array u.index
                (received P u.negative_theta u.size_theta (P.decimal 10000 0));
          a_psi_array =
              set g.a_psi_array u.index (received P u.negative_psi u.size_psi (P.decimal 10000 0));
        },
        rw (lt→ltb u.index n_mfm h) refl,
        record {
          tracker = f.tracker;
          rings = f.rings;
          v_x_fits = length-set g.v_x_array u.index _ ∙ f.v_x_fits;
          v_y_fits = f.v_y_fits;
          theta_fits = length-set g.a_theta_array u.index _ ∙ f.theta_fits;
          psi_fits = length-set g.a_psi_array u.index _ ∙ f.psi_fits;
          counter_fits = f.counter_fits;
        },
      )

  -- `eventMaster` of any packet that can be kept, and of every other key.
  pub event_master-MasterFits :
      (t key payload : ℕ) {m : Master Num}
      → MasterFits m
      → IsKept (send_mc key payload)
      → (m' : Master Num) × (event_master P t key payload m ≡ some m') × MasterFits m'
  unfolding event_master
  event_master-MasterFits t key payload {m} f k = elim (Bool-cases (is_update key)) [
    | inl upd ↦
        let (g, e, f') = rec_upd-MasterFits key payload f (k upd) in
        (record m { network = g }, rw (upd, e) refl, f')
    | inr other ↦ elim (Bool-cases (event_polarity key == 1 && not (t == 0))) [
      | inl seen ↦
          let tracker' = compute_pos P (pos (event_x key)) (pos (event_y key)) m.tracker in
          (
            record m { tracker = tracker' },
            rw (other, seen) refl,
            record {
              tracker =
                  compute_pos-IsValid P (pos (event_x key)) (pos (event_y key))
                    (event_x-IsCoordinate key) (event_y-IsCoordinate key) f.tracker;
              rings = f.rings;
              v_x_fits = f.v_x_fits;
              v_y_fits = f.v_y_fits;
              theta_fits = f.theta_fits;
              psi_fits = f.psi_fits;
              counter_fits = f.counter_fits;
            },
          )
      | inr skipped ↦ (m, rw (other, skipped) refl, f)
    ]
  ]

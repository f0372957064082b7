-- ===== src/Parallel/Board/Rounds/Keeps.antt =====
-- What the answers and the events of the camera leave of the master.
use spi_nnaker.Prelude.{◌≡◌, refl, ◌∙◌, List, [], ◌∷◌, ◌==◌, length-set, if-keeps, not, ◌&&◌}
use spi_nnaker.Prelude.Int.{pos}
use spi_nnaker.Platform.{Platform}
use spi_nnaker.Track.Valid.{IsValid, compute_pos-IsValid}
use spi_nnaker.Sequential.Controller.{event_x, event_y, event_polarity}
use spi_nnaker.Sequential.Controller.Keys.{event_x-IsCoordinate, event_y-IsCoordinate}
use spi_nnaker.Parallel.Node.{Node, update_fields}
use spi_nnaker.Parallel.Master.{Master}
use spi_nnaker.Parallel.Board.MasterArrays.{MasterFits}
use spi_nnaker.Parallel.Board.Round.{informed}
use spi_nnaker.Parallel.Board.Gather.{Answer, inform_all}
use spi_nnaker.Parallel.Board.Rounds.{Camera, looked, look_all}

module _ (P : Platform) where
  open P use {Num}

  -- What the answers and the camera leave as it is.
  abbrev pub Stays : Master Num → Master Num → Type 0
  Stays m m' = (m'.state ≡ m.state) × (m'.network.counter ≡ m.network.counter)

  informed-MasterFits : (s : Node Num) {m : Master Num} → MasterFits m → MasterFits (informed P s m)
  informed-MasterFits s {m} f = record {
    tracker = f.tracker;
    rings = f.rings;
    v_x_fits = length-set m.network.v_x_array (update_fields P s.network).index _ ∙ f.v_x_fits;
    v_y_fits = f.v_y_fits;
    theta_fits =
        length-set m.network.a_theta_array (update_fields P s.network).index _ ∙ f.theta_fits;
    psi_fits = length-set m.network.a_psi_array (update_fields P s.network).index _ ∙ f.psi_fits;
    counter_fits = f.counter_fits;
  }

  pub inform_all-MasterFits :
      (answers : List (Answer Num)) {m : Master Num}
      → MasterFits m
      → MasterFits (inform_all P answers m) × Stays m (inform_all P answers m)
  inform_all-MasterFits [] f = (f, (refl, refl))
  inform_all-MasterFits (a ∷ answers) f = inform_all-MasterFits answers (informed-MasterFits a.1 f)

  looked-MasterFits : (c : Camera) {m : Master Num} → MasterFits m → MasterFits (looked P c m)
  looked-MasterFits c {m} f = record {
    tracker =
        if-keeps IsValid (event_polarity c.key == 1 && not (c.time == 0)) _ _
          (compute_pos-IsValid P (pos (event_x c.key)) (pos (event_y c.key))
            (event_x-IsCoordinate c.key) (event_y-IsCoordinate c.key) f.tracker)
          f.tracker;
    rings = f.rings;
    v_x_fits = f.v_x_fits;
    v_y_fits = f.v_y_fits;
    theta_fits = f.theta_fits;
    psi_fits = f.psi_fits;
    counter_fits = f.counter_fits;
  }

  pub look_all-MasterFits :
      (cameras : List Camera) {m : Master Num}
      → MasterFits m
      → MasterFits (look_all P cameras m) × Stays m (look_all P cameras m)
  look_all-MasterFits [] f = (f, (refl, refl))
  look_all-MasterFits (c ∷ cameras) f = look_all-MasterFits cameras (looked-MasterFits c f)

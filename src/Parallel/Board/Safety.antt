-- ===== src/Parallel/Board/Safety.antt =====
-- What holds in every state of the board, whatever the order of the callbacks and of the packets.
use mathlib.Core.List.{Memᴰ}
use spi_nnaker.Prelude.{
  ℕ, ◌<◌, ◌≡◌, refl, ◌≢◌, Bool-cases, inl, inr, some, none, ◌==◌, ==_iff, if-keeps, arith, All,
  All-append, All-Memᴰ,
}
use spi_nnaker.Prelude.Loop.{for_each}
use spi_nnaker.Platform.{Platform, Laws}
use spi_nnaker.Network.Rings.{RingsFit}
use spi_nnaker.Parallel.Activity
use spi_nnaker.Track.Valid.{start-IsValid}
use spi_nnaker.Device.{send_mc, start_chip_devices}
use spi_nnaker.Device.Routes.{init_chip_io}
use spi_nnaker.Parallel.Messages.{is_update}
use spi_nnaker.Parallel.Globals.{n_mfm, Globals}
use spi_nnaker.Parallel.Node.{Node, node_index, event_node}
use spi_nnaker.Parallel.Master.{Master, event_master}
use spi_nnaker.Parallel.Start.{initial, c_main, init_network, init_params, fill_buffers, is_master}
use spi_nnaker.Parallel.Board.{Board, Place, replace, booted, Step, IsNumeric}
use spi_nnaker.Parallel.Board.NodeArrays
use spi_nnaker.Parallel.Messages.Kinds.{camera_apart}
use spi_nnaker.Parallel.Board.NodeArrays.{IsKept, NodeFits, event_node-NodeFits}
use spi_nnaker.Parallel.Board.MasterArrays.{not-IsKept, MasterFits, update-MasterFits}
use spi_nnaker.Parallel.Board.MasterArrays.Packets.{event_master-MasterFits}

module _ (n : ℕ) (places : ℕ → Place) where
  -- The master has room for every node.
  abbrev pub AllPlaced : Type 0
  AllPlaced = (i : ℕ) → i < n → node_index (places i).chip (places i).core < n_mfm

  -- The arrays of the cores have their lengths, the indices are inside, and every update on its way fits.
  pub record IsSafe {N : Type 0} (b : Board N) : Type 0 where
    pub master : MasterFits b.master
    pub nodes : (i : ℕ) → i < n → NodeFits (places i).chip (places i).core (b.nodes i)
    pub kept : All IsKept b.sent

module _ (P : Platform) (n : ℕ) (places : ℕ → Place) where
  open P use {Num}

  -- The states that the board can reach.
  pub data Reach : Board Num → Type 0 where
    boot : Reach (booted P places)
    next : {b b' : Board Num} → Reach b → Step P n b b' → Reach b'

  -- In every state on the way the values to be scaled are numbers.
  abbrev pub IsNumericRun : {b : Board Num} → Reach b → Type 0
  IsNumericRun boot = Unit
  IsNumericRun (next {b} {b'} r step) = IsNumericRun r × IsNumeric P n b'

  -- The two packets of `startDevices` are no updates.
  started-IsKept : (g : Globals Num) → All IsKept (c_main P 0 1 g).1
  unfolding c_main init_chip_io start_chip_devices is_master is_update
  started-IsKept g = ground arith

  booted-IsSafe : IsSafe n places (booted P places)
  unfolding c_main init_network init_params initial fill_buffers for_each is_master
      Activity.init_mfm
  booted-IsSafe = record {
    master = record {
      tracker = start-IsValid;
      rings = record { length_pos = refl; length_speed = refl; index_in = omega arith };
      v_x_fits = refl;
      v_y_fits = refl;
      theta_fits = refl;
      psi_fits = refl;
      counter_fits = omega arith;
    };
    nodes = λ i lt. record {
      at_chip = refl;
      at_core = refl;
      rings =
          if-keeps RingsFit (is_master (places i).chip (places i).core) _ _
            (record { length_pos = refl; length_speed = refl; index_in = omega arith })
            (record { length_pos = refl; length_speed = refl; index_in = omega arith });
      v_x_fits = refl;
      v_y_fits = refl;
      theta_fits = refl;
      psi_fits = refl;
    };
    kept = started-IsKept (initial P);
  }

replace_self {ℓ} : {A : Type ℓ} (f : ℕ → A) (i : ℕ) (a : A) → replace f i a i ≡ a
replace_self f i a = ground arith

module _ (P : Platform) (laws : Laws P) (n : ℕ) (places : ℕ → Place)
    (placed : AllPlaced n places) where
  open P use {Num}

  replaced-NodeFits :
      (b : Board Num) (i j : ℕ) (s : Node Num)
      → NodeFits (places i).chip (places i).core s
      → NodeFits (places j).chip (places j).core (b.nodes j)
      → NodeFits (places j).chip (places j).core (replace b.nodes i s j)
  replaced-NodeFits b i j s new old = elim (Bool-cases (i == j)) [
    | inl e ↦ rw e (rw ((==_iff i j).0 e) at new)
    | inr e ↦ rw e old
  ]

  received :
      (time key payload : ℕ) (b : Board Num) (m : Master Num)
      → IsSafe n places b
      → IsKept (send_mc key payload)
      → event_master P time key payload b.master ≡ some m
      → MasterFits m
  received time key payload b m s fine e =
      let (m', e', fits) = event_master-MasterFits P laws time key payload s.master fine in
      let same : m' ≡ m = ground (arith, e, e') in rw same at fits

  Step-IsSafe :
      {b b' : Board Num} → Step P n b b' → IsNumeric P n b' → IsSafe n places b → IsSafe n places b'
  Step-IsSafe {b} (Step.tick time) h s =
      let (fits, kept) = update-MasterFits P laws time s.master h.0 in
      record { master = fits; nodes = s.nodes; kept = All-append IsKept _ b.sent kept s.kept }
  Step-IsSafe {b} (Step.camera time key {m} small e) h s =
      let fine = not-IsKept key 0 (camera_apart key small).1 in
      record { master = received time key 0 b m s fine e; nodes = s.nodes; kept = s.kept }
  Step-IsSafe {b} (Step.to_master time key payload {m} packet e) h s =
      let fine = All-Memᴰ IsKept s.kept packet in
      record { master = received time key payload b m s fine e; nodes = s.nodes; kept = s.kept }
  Step-IsSafe {b} (Step.to_node i key payload lt packet) h s =
      let s' = (event_node P key payload (b.nodes i)).0 in
      let numeric : NodeArrays.IsNumeric P s' = rw (replace_self b.nodes i s') at (h.1 i lt) in
      let (fits, kept) =
        event_node-NodeFits P laws key payload (placed i lt) (s.nodes i lt) numeric in
      record {
        master = s.master;
        nodes = λ j below. replaced-NodeFits b i j s' fits (s.nodes j below);
        kept = All-append IsKept _ b.sent kept s.kept;
      }

  -- Whatever the order in which the callbacks run and the packets arrive, repeat or get lost: as long as
  -- the values to be scaled are numbers and each node's own index is below 59, the arrays of the master's
  -- tracker, of its network and of every node's network have their lengths, the ring indices and the counter
  -- stay in range, the tracker is valid, and every update on its way has an index below 59.
  pub Reach-IsSafe :
      {b : Board Num} (r : Reach P n places b) → IsNumericRun P n places r → IsSafe n places b
  Reach-IsSafe boot h = booted-IsSafe P n places
  Reach-IsSafe (next r step) h = Step-IsSafe step h.1 (Reach-IsSafe r h.0)

  -- No packet that was sent can make the master write outside its arrays, in any state that the board
  -- reaches while the values to be scaled are numbers and the nodes' indices are below 59.
  pub event_master-ne-none :
      {b : Board Num} (time key payload : ℕ) (r : Reach P n places b)
      → IsNumericRun P n places r
      → Memᴰ (send_mc key payload) b.sent
      → event_master P time key payload b.master ≢ none
  event_master-ne-none time key payload r h packet =
      let s = Reach-IsSafe r h in
      let (m, e, _) =
        event_master-MasterFits P laws time key payload s.master (All-Memᴰ IsKept s.kept packet) in
      λ fault. ground (arith, e, fault)

-- ===== src/Parallel/Master/Fault.antt =====
-- What the master makes of a node's update.
use spi_nnaker.Prelude.{
  ℕ, suc, ◌+◌, ◌*◌, ◌≤◌, ◌<◌, ◌≡◌, refl, ap, ◌↔◌, bit_and_mask, true, Option, none, some, [], ◌∷◌,
  arith, if◌then◌else◌, ltb, set,
}
use spi_nnaker.Platform.{Platform, Laws}
use spi_nnaker.Calc.Bounds.{clamp-IsWithin}
use spi_nnaker.Device.{send_mc}
use spi_nnaker.Parallel.Globals.{n_mfm, Globals}
use spi_nnaker.Parallel.Messages.{UpdateFields, pack_update}
use spi_nnaker.Parallel.Messages.Updates.{Fits, unpack_update-pack_update}
use spi_nnaker.Parallel.Node.{core_nb, node_index, received, update_fields, send_upd}
use spi_nnaker.Parallel.Master.{rec_upd}
use spi_nnaker.Parallel.Master.Stream.{scaled-le}

-- The index of a core is its place among the 64 cores 1 to 16 of the four chips.
pub node_index-value :
    (chip_y chip_x core : ℕ)
    → chip_y < 2
    → chip_x < 2
    → core < 16
    → node_index (chip_y * 256 + chip_x) (suc core) ≡ 32 * chip_y + 16 * chip_x + core
unfolding node_index core_nb
node_index-value chip_y chip_x core hy hx hc =
    let x = bit_and_mask 8 (chip_y * 256 + chip_x) in omega (arith, x)

-- No two cores of the board have the same index.
pub node_index-injective :
    (y x c y' x' c' : ℕ)
    → (y < 2) × (x < 2) × (c < 16)
    → (y' < 2) × (x' < 2) × (c' < 16)
    → node_index (y * 256 + x) (suc c) ≡ node_index (y' * 256 + x') (suc c')
    → (y ≡ y') × (x ≡ x') × (c ≡ c')
node_index-injective y x c y' x' c' (hy, hx, hc) (hy', hx', hc') e =
    let a = node_index-value y x c hy hx hc in
    let b = node_index-value y' x' c' hy' hx' hc' in
    (omega (arith, a, b, e), omega (arith, a, b, e), omega (arith, a, b, e))

module _ (P : Platform) (laws : Laws P) where
  open P use {Num, same, neg, decimal, single, ◌⊗◌}

  infixl 70 ◌⊗◌
  -- The four products that `send_upd` cuts to the interval are numbers.
  abbrev pub ProductsAreNumbers : Globals Num → Type 0
  ProductsAreNumbers g =
      let p = g.population in
      let number : Num → Type 0 = λ v. same v v ≡ true in
      number (single (p.w_v_x ⊗ p.f_x))
      × number (single (p.w_v_y ⊗ p.f_y))
      × number (single (p.w_a_theta ⊗ p.f_x))
      × number (single (p.w_a_psi ⊗ p.f_y))

  pub update_fields-Fits :
      (g : Globals Num)
      → ProductsAreNumbers g
      → node_index g.chip_id g.core_id < 64
      → Fits (update_fields P g)
  unfolding update_fields
  update_fields-Fits g (a, b, c, d) h = record {
    index_fits = h;
    size_v_x_fits =
        omega (arith, scaled-le P laws _ 1000 (omega arith) (clamp-IsWithin P laws _ a));
    size_v_y_fits =
        omega (arith, scaled-le P laws _ 1000 (omega arith) (clamp-IsWithin P laws _ b));
    size_theta_fits =
        omega (arith, scaled-le P laws _ 10_000 (omega arith) (clamp-IsWithin P laws _ c));
    size_psi_fits =
        omega (arith, scaled-le P laws _ 10_000 (omega arith) (clamp-IsWithin P laws _ d));
  }

  -- What the master keeps of the fields `u`.
  abbrev pub kept : UpdateFields → Globals Num → Option (Globals Num)
  kept u m =
      if ltb u.index n_mfm
      then some (record m {
        v_x_array = set m.v_x_array u.index (received P u.negative_v_x u.size_v_x (decimal 1000 0));
        a_theta_array =
            set m.a_theta_array u.index
              (received P u.negative_theta u.size_theta (decimal 10000 0));
        a_psi_array =
            set m.a_psi_array u.index (received P u.negative_psi u.size_psi (decimal 10000 0));
      })
      else none

  -- The packet of a node's `send_upd`, whose products are numbers, reaches `rec_upd` with the fields it
  -- was sent with, and the master keeps the values of them that it uses.
  pub rec_upd-send_upd :
      (g m : Globals Num)
      → ProductsAreNumbers g
      → node_index g.chip_id g.core_id < 64
      → let p = pack_update (update_fields P g) in
        (send_upd P g ≡ send_mc p.key p.payload ∷ [])
        × (rec_upd P p.key p.payload m ≡ kept (update_fields P g) m)
  unfolding rec_upd send_upd
  rec_upd-send_upd g m h k =
      (refl, ap (λ u. kept u m) (unpack_update-pack_update (update_fields-Fits g h k)))

  kept-none : (u : UpdateFields) (m : Globals Num) → (kept u m ≡ none) ↔ (59 ≤ u.index)
  kept-none u m = ground arith

  -- The master writes outside its arrays on the update of a node exactly when the node's index is 59 or
  -- more.
  pub rec_upd-none :
      (g m : Globals Num)
      → ProductsAreNumbers g
      → node_index g.chip_id g.core_id < 64
      → let p = pack_update (update_fields P g) in
        (rec_upd P p.key p.payload m ≡ none) ↔ (59 ≤ node_index g.chip_id g.core_id)
  unfolding update_fields
  rec_upd-none g m h k = rw (rec_upd-send_upd g m h k).1 (kept-none (update_fields P g) m)

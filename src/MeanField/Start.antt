-- ===== src/MeanField/Start.antt =====
-- The state in which runMFM.c starts.
use spi_nnaker.Prelude.{replicate, ℕ, ◌+◌, ◌≡◌, refl, if-keeps, List, arith, All, length, ◌==◌}
use spi_nnaker.Prelude.Int.{ℤ, pos}
use spi_nnaker.MeanField.{MeanField, fixed, m}
use spi_nnaker.MeanField.Main.{couplings, c_main, initial}
use spi_nnaker.MeanField.Network.{IsValid, IsBelow}

abbrev FitsCouplings : List ℤ → Type 0
FitsCouplings js = All (IsBelow 300) js × (length js ≡ m)

couplings-Fits : (core : ℕ) → FitsCouplings (couplings core)
unfolding couplings
couplings-Fits core =
    let pick = if-keeps FitsCouplings in
    pick (core == 9) _ _ (omega arith) (
      pick (core == 10) _ _ (omega arith)
        (pick (core == 11) _ _ (omega arith) (pick (core == 12) _ _ (omega arith) (omega arith))))

-- What the invariant reads is the same for every core but the couplings.
started-IsValid :
    (core : ℕ) (s : MeanField)
    → s.j ≡ couplings core
    → s.f ≡ fixed 10
    → s.i_ext ≡ pos 0
    → s.f_pre ≡ replicate m (pos 0)
    → (s.x ≡ 0) × (s.y ≡ 0) × (s.x_old ≡ replicate 20 0) × (s.y_old ≡ replicate 20 0)
    → IsValid s
started-IsValid core s ej ef ei er (ex, ey, eox, eoy) =
    let (js, n) = couplings-Fits core in
    record {
      rate = rw ef (omega arith);
      rates = rw er (omega arith);
      length_rates = rw er refl;
      couplings = rw ej js;
      length_couplings = rw ej n;
      input = rw ei (omega arith);
      x_in = rw ex (omega arith);
      y_in = rw ey (omega arith);
      x_old_in = rw eox (omega arith);
      y_old_in = rw eoy (omega arith);
    }

-- Whatever the numbers of the chip and the core, `c_main` starts the core in a valid state.
pub c_main-IsValid : (chip_id core_id : ℕ) → IsValid (c_main chip_id core_id initial).0
unfolding c_main
c_main-IsValid chip_id core_id =
    if-keeps IsValid (core_id == m + 1) _ _
      (started-IsValid core_id _ refl refl refl refl (refl, refl, refl, refl))
      (started-IsValid core_id _ refl refl refl refl (refl, refl, refl, refl))

-- ===== src/MeanField/Cluster/Net/Boot.antt =====
-- The cores of runMFM.c after `c_main` are the populations of a network.
use spi_nnaker.Prelude.{
  ℕ, zero, suc, ◌-◌, ◌+◌, ◌<◌, ◌≡◌, refl, sym, arith, get_or, replicate, if-keeps, ◌==◌,
}
use spi_nnaker.Prelude.Int.{ℤ, pos}
use spi_nnaker.MeanField.{MeanField, m, fixed}
use spi_nnaker.MeanField.Main.{couplings, c_main}
use spi_nnaker.MeanField.Cluster.{booted, boot}
use spi_nnaker.MeanField.Cluster.Running.{Reach-IsRunning}
use spi_nnaker.MeanField.Cluster.Net.{Net, IsNet}

-- Every rate is 10, no core has heard of any, and the ball has not been seen.
abbrev pub first_net : Net
first_net = record {
  own = replicate m (fixed 10);
  heard = replicate m (pos 0);
  inputs = λ i. pos 0;
  x_old = replicate 20 0;
  y_old = replicate 20 0;
  x = 0;
  y = 0;
  count = 0;
}

get_or-replicate : (n j : ℕ) (a d : ℤ) → j < n → get_or (replicate n a) j d ≡ a
get_or-replicate zero j a d h = absurd (omega arith)
get_or-replicate (suc n) zero a d h = refl
get_or-replicate (suc n) (suc j) a d h = get_or-replicate n j a d (omega arith)

pub booted-IsNet : (chip : ℕ) → IsNet first_net (booted chip).cores
unfolding c_main
booted-IsNet chip = record {
  parts = λ i lo hi. record {
    core = (Reach-IsRunning chip boot).cores i;
    rate =
        if-keeps (λ (s : MeanField). s.f ≡ get_or (replicate m (fixed 10)) (i - 1) (pos 0))
          (i == m + 1) _ _ (sym (get_or-replicate m (i - 1) (fixed 10) (pos 0) (omega arith)))
          (sym (get_or-replicate m (i - 1) (fixed 10) (pos 0) (omega arith)));
    rates = if-keeps (λ (s : MeanField). s.f_pre ≡ replicate m (pos 0)) (i == m + 1) _ _ refl refl;
    weights = if-keeps (λ (s : MeanField). s.j ≡ couplings i) (i == m + 1) _ _ refl refl;
    input = if-keeps (λ (s : MeanField). s.i_ext ≡ pos 0) (i == m + 1) _ _ refl refl;
    x_before = if-keeps (λ (s : MeanField). s.x_old ≡ replicate 20 0) (i == m + 1) _ _ refl refl;
    y_before = if-keeps (λ (s : MeanField). s.y_old ≡ replicate 20 0) (i == m + 1) _ _ refl refl;
    x_now = if-keeps (λ (s : MeanField). s.x ≡ 0) (i == m + 1) _ _ refl refl;
    y_now = if-keeps (λ (s : MeanField). s.y ≡ 0) (i == m + 1) _ _ refl refl;
  };
  motor = (refl, refl);
}

-- ===== src/SpeedTest/Counts.antt =====
-- How many packets the receivers of the speed test report.
use spi_nnaker.Prelude.{
  ℕ, ◌+◌, ◌*◌, ◌/◌, ◌%◌, ◌^◌, ◌<◌, ◌≡◌, List, [], ◌∷◌, ◌++◌, arith, length, length-append,
}
use spi_nnaker.Device.{Effect}
use spi_nnaker.SpeedTest.{upd_msg, event_master_chip0, event_rec_chip1}

-- UPD packets one after the other, with the times at which they come.
abbrev pub master_run : List ℕ → ℕ → ℕ × List Effect
master_run [] nb = (nb, [])
master_run (t ∷ times) nb =
    let (nb1, e1) = event_master_chip0 t upd_msg nb in
    let (nb2, e2) = master_run times nb1 in (nb2, e1 ++ e2)

abbrev pub rec_run : List ℕ → ℕ → ℕ × List Effect
rec_run [] nb = (nb, [])
rec_run (t ∷ times) nb =
    let (nb1, e1) = event_rec_chip1 t nb in let (nb2, e2) = rec_run times nb1 in (nb2, e1 ++ e2)

master_step :
    (t nb : ℕ)
    → nb < 15
    → let r = event_master_chip0 t upd_msg nb in (r.0 < 15) × (15 * length r.1 + r.0 ≡ nb + 1)
unfolding event_master_chip0
master_step t nb h = ground arith

master_counts :
    (times : List ℕ) (nb : ℕ)
    → nb < 15
    → let r = master_run times nb in (r.0 < 15) × (15 * length r.1 + r.0 ≡ nb + length times)
master_counts [] nb h = (h, omega arith)
master_counts (t ∷ times) nb h =
    let r = event_master_chip0 t upd_msg nb in
    let s = master_step t nb h in
    let u = master_counts times r.0 s.0 in
    (u.0, omega (arith, s, u, length-append r.1 (master_run times r.0).1))

rec_step :
    (t nb : ℕ)
    → nb + 1 < 2 ^ 32
    → let r = event_rec_chip1 t nb in (r.0 ≡ nb + 1) × (length r.1 + nb / 64 ≡ (nb + 1) / 64)
unfolding event_rec_chip1
rec_step t nb h = ground arith

rec_counts :
    (times : List ℕ) (nb : ℕ)
    → nb + length times < 2 ^ 32
    → let r = rec_run times nb in
      (r.0 ≡ nb + length times) × (length r.1 + nb / 64 ≡ (nb + length times) / 64)
rec_counts [] nb h = (omega arith, omega arith)
rec_counts (t ∷ times) nb h =
    let r = event_rec_chip1 t nb in
    let s = rec_step t nb (omega arith) in
    let u = rec_counts times r.0 (omega (arith, s)) in
    (omega (arith, s, u), omega (arith, s, u, length-append r.1 (rec_run times r.0).1))

-- After any number of UPD packets below 2 ^ 32, the master of chip 0 has reported every full 15 of them
-- once and counts the rest; a receiver of chip 1 has counted all and reported every full 64 once.
pub runs_report :
    (times : List ℕ)
    → length times < 2 ^ 32
    → (length (master_run times 0).1 ≡ length times / 15)
      × ((master_run times 0).0 ≡ length times % 15)
      × ((rec_run times 0).0 ≡ length times)
      × (length (rec_run times 0).1 ≡ length times / 64)
runs_report times h =
    let c = master_counts times 0 (omega arith) in
    let d = rec_counts times 0 (omega arith) in
    (omega (arith, c), omega (arith, c), omega (arith, d), omega (arith, d))

-- ===== src/Tests/Rates.antt =====
-- The cores of runMFM.c.
use spi_nnaker.Prelude.{arith}
use spi_nnaker.Prelude.Int.{pos, negsuc, ◌+ℤ◌, ◌-ℤ◌, ◌*ℤ◌, ◌≤ℤ◌}
use spi_nnaker.MeanField.{MeanField, fixed, summ, if_fct, send_mc_packet_angles}
use spi_nnaker.MeanField.Main.{initial, c_main}
use spi_nnaker.MeanField.Network.{IsBelow}
use spi_nnaker.MeanField.Exchange.{numbers_in_range}
use spi_nnaker.MeanField.Settle.{after_ticks, target, rate_settles}
use spi_nnaker.MeanField.Start.{c_main-IsValid}

-- Core 9 after `c_main`.
abbrev core_9 : MeanField
core_9 = (c_main 1 9 initial).0

rate_settles_example :
    ((after_ticks 53 core_9).f ≤ℤ target core_9)
    × (target core_9 ≤ℤ (after_ticks 53 core_9).f +ℤ pos 6)
rate_settles_example = rate_settles 53 (omega arith) (c_main-IsValid 1 9)

numbers_in_range_example :
    let input = summ (pos 0) core_9.j core_9.f_pre +ℤ core_9.i_ext in
    let product = (if_fct input -ℤ core_9.f) *ℤ fixed 40 in
    let s' = (send_mc_packet_angles core_9).0 in
    (IsBelow 450_000 (summ (pos 0) core_9.j core_9.f_pre)
      × IsBelow 1_509_328 input
      × (negsuc 262_143_999 ≤ℤ product)
      × (product ≤ℤ pos 262_144_000))
    × ((pos 88 ≤ℤ s'.theta +ℤ pos 800)
        × (s'.theta ≤ℤ pos 888)
        × (pos 24 ≤ℤ s'.phi +ℤ pos 800)
        × (s'.phi ≤ℤ pos 824))
numbers_in_range_example = numbers_in_range (c_main-IsValid 1 9)

-- ===== src/Tests/Counts.antt =====
-- The speed test.
use spi_nnaker.Prelude.{ℕ, ◌/◌, ◌%◌, ◌≡◌, List, [], ◌∷◌, length, arith}
use spi_nnaker.SpeedTest.Counts.{master_run, rec_run, runs_report}

abbrev times : List ℕ
times = 5 ∷ 5 ∷ 6 ∷ []

runs_report_example :
    (length (master_run times 0).1 ≡ length times / 15)
    × ((master_run times 0).0 ≡ length times % 15)
    × ((rec_run times 0).0 ≡ length times)
    × (length (rec_run times 0).1 ≡ length times / 64)
runs_report_example = runs_report times (omega arith)

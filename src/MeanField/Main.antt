-- ===== src/MeanField/Main.antt =====
-- The start of a core of doc/spiNNaker/runMFM.c: `c_main`, and the globals before it.
use spi_nnaker.Prelude.{
  ℕ, ◌+◌, ◌*◌, ◌%◌, ◌^◌, bit_or, List, [], ◌∷◌, ◌++◌, if◌then◌else◌, ◌==◌, leb, set, replicate,
}
use spi_nnaker.Prelude.Loop.{for_each}
use spi_nnaker.Prelude.Int.{ℤ, pos, negsuc}
use spi_nnaker.Device.{Effect, Event, Handler, set_mc_entry, ◌<<<◌}
use spi_nnaker.Device.Routes.{east}
use spi_nnaker.MeanField.{MeanField, m, fixed, motor_cmd_key}

-- The two writes to `J` of the cores 9 to 12.
unfoldable pub couplings : ℕ → List ℤ
couplings core =
    let couple = λ (at : ℕ) (js : List ℤ). set (set js at (pos 300)) (at + 4) (pos 300) in
    let none_yet = replicate m (pos 0) in
    if core == 9
    then couple 0 none_yet
    else if core == 10
    then couple 1 none_yet
    else if core == 11
    then couple 2 none_yet
    else if core == 12
    then couple 3 none_yet
    else none_yet

-- The loop over `allcores`.
unfoldable pub all_cores : ℕ
unfolding for_each
all_cores = for_each 16 7 (λ i a. bit_or a (1 <<< i)) 0

unfoldable pub c_main : ℕ → ℕ → MeanField → MeanField × List Effect
unfolding couplings all_cores
c_main chip_id core_id s =
    let is_motor_core = core_id == m + 1 in
    let s1 = record s {
      i_ext = pos 0;
      core_map = 0x00000 ∷ 0x00000 ∷ 0x1fffe ∷ 0x00000 ∷ [];
      core_id = core_id;
      chip_id = chip_id;
      f_pre = replicate m (pos 0);
      x_array = replicate m (fixed 1);
      u = replicate m (pos 0);
      j = couplings core_id;
      tr = replicate m (pos 64);
      tf = replicate m (pos 64);
      use_array = replicate m (pos 25);
    } in
    let timer =
      if leb core_id m
      then Effect.set_timer_tick 1000
        ∷ Effect.callback_on Event.timer_tick Handler.send_mc_packet_rates 4
        ∷ []
      else if is_motor_core
      then set_mc_entry core_id 0x0 0x0 all_cores
        ∷ set_mc_entry 0 motor_cmd_key motor_cmd_key east
        ∷ set_mc_entry 1 0x0200_0000 0xffff_0000 all_cores
        ∷ Effect.set_timer_tick 1000
        ∷ Effect.callback_on Event.timer_tick Handler.send_mc_packet_angles 1
        ∷ []
      else [] in
    (
      if is_motor_core then record s1 { theta = negsuc 199; phi = pos 200 } else s1,
      Effect.delay (core_id * 100 % 2 ^ 32)
          ∷ (timer
              ++ (Effect.callback_on Event.mc_packet_received Handler.process_mc_packet 2
                  ∷ Effect.start_simulation
                  ∷ [])),
    )

-- The values of the globals before `c_main`.
abbrev pub initial : MeanField
initial = record {
  core_map = replicate 4 0;
  core_id = 0;
  chip_id = 0;
  theta = pos 0;
  phi = pos 0;
  x_old = replicate 20 0;
  y_old = replicate 20 0;
  x = 0;
  y = 0;
  count = 0;
  f = fixed 10;
  i_ext = pos 0;
  j = replicate m (pos 0);
  f_pre = replicate m (pos 0);
  u = replicate m (pos 0);
  x_array = replicate m (pos 0);
  use_array = replicate m (pos 0);
  tr = replicate m (pos 0);
  tf = replicate m (pos 0);
}

-- ===== src/SpeedTest.antt =====
-- tests/speed_test/speed_test.c: the messages of one chip, counted. `nb_packets` is the state.
pub mod Counts
use spi_nnaker.Prelude.{ℕ, ◌+◌, ◌%◌, ◌^◌, ◌||◌, List, [], ◌∷◌, ◌++◌, if◌then◌else◌, ◌==◌, replicate}
use spi_nnaker.Prelude.Int.{negsuc, to_uint}
use spi_nnaker.Device.{Effect, Event, Handler, Line, send_mc, set_mc_entry}
use spi_nnaker.Device.Routes.{core, all_nodes_master_chip, master_core}

abbrev pub error_msg : ℕ
error_msg = 0x20

abbrev pub upd_msg : ℕ
upd_msg = 0x30

unfoldable pub update_chip0 : List Effect
update_chip0 = Effect.print Line.sending_error ∷ send_mc error_msg 0 ∷ []

unfoldable pub event_node_chip0 : ℕ → List Effect
event_node_chip0 key = if key == error_msg then send_mc upd_msg 0 ∷ [] else []

-- `sim_time` is what `spin1_get_simulation_time()` returns.
unfoldable pub event_master_chip0 : ℕ → ℕ → ℕ → ℕ × List Effect
event_master_chip0 sim_time key nb_packets =
    let counted = (nb_packets + 1) % 2 ^ 32 in
    if key == upd_msg
    then if counted == 15 then (0, Effect.print (Line.received_15 sim_time) ∷ []) else (counted, [])
    else (nb_packets, [])

unfoldable pub update_chip1 : ℕ → List Effect
update_chip1 core_id =
    Effect.print Line.sending_64 ∷ replicate 64 (send_mc ((core_id + 1) % 2 ^ 32) 0)

unfoldable pub event_rec_chip1 : ℕ → ℕ → ℕ × List Effect
event_rec_chip1 sim_time nb_packets =
    let counted = (nb_packets + 1) % 2 ^ 32 in
    (counted, if counted % 64 == 0 then Effect.print (Line.received_64 sim_time) ∷ [] else [])

unfoldable pub c_main : ℕ → ℕ → List Effect
c_main chip_id core_id =
    let chip0 =
      set_mc_entry 0x6 error_msg 0xffff_ffff all_nodes_master_chip
      ∷ set_mc_entry 0x7 upd_msg 0xffff_ffff master_core
      ∷ (if core_id == 1
          then Effect.callback_on Event.mc_packet_received Handler.event_master_chip0 0
            ∷ Effect.callback_on Event.timer_tick Handler.update_chip0 0
            ∷ []
          else Effect.callback_on Event.mc_packet_received Handler.event_node_chip0 0 ∷ []) in
    let chip1 =
      set_mc_entry 0x2 0x2 0xffff_ffff (core 2)
      ∷ set_mc_entry 0x4 0x4 0xffff_ffff (core 4)
      ∷ set_mc_entry 0x6 0x6 0xffff_ffff (core 6)
      ∷ (if core_id == 3 || core_id == 1 || core_id == 5
          then Effect.callback_on Event.timer_tick Handler.update_chip1 (to_uint (negsuc 1)) ∷ []
          else Effect.callback_on Event.mc_packet_received Handler.event_rec_chip1
              (to_uint (negsuc 0))
            ∷ []) in
    Effect.set_timer_tick 100_000
    ∷ ((if chip_id == 0 then chip0 else if chip_id == 1 then chip1 else [])
        ++ (Effect.start_simulation ∷ []))

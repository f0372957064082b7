-- ===== src/Lib.antt =====
-- A model of the ball balancing controllers for the SpiNNaker board: a camera reports where a ball
-- lies on a plate, a network of mean-field populations learns to steer two motors, and the ball is to
-- stay in the middle.
--
-- The program comes in two versions. The sequential one (sequential/) keeps 64 populations in arrays on
-- one core. In the parallel one (parallel/) a master core tracks the ball, moves the motors and sends
-- the learning error to nodes, which hold one population each and send back what it contributes. A
-- third controller (doc/spiNNaker/runMFM.c) runs 16 cores in fixed-point numbers.
--
-- The files and the code:
--   Platform           what the target gives and the repository does not hold: floating point, sqrt,
--                      cos, sin, rand and srand, as a record with laws. Platform/Fixed fills it with
--                      fixed-point numbers, for the tests.
--   Calc               spin1_math.c: vectors, range, f_abs.
--   Track              compute_pos of the two BallController.c, with the globals it works on: Mean is its
--                      specification, Warmup and Gate the test before a sample is taken.
--   Device             communication.c: motor commands, devices, routing tables. A call of the SpiNNaker
--                      API that changes something outside is a value of Effect, and a function gives the
--                      list of its effects in their order.
--   Network            the part of network.c that both versions have: the ball's position and speed, the
--                      reward, the activation, the noise, as sequential/network.c writes them, and in
--                      Constants those of network.h.
--   Sequential         sequential/network.c and sequential/BallController.c: Math (the copy of
--                      spin1_math.c in sequential/, with what an uninitialised local variable holds as a
--                      parameter; the other files use Calc), Globals, Init (init_MFM,
--                      init_network, save_), Learning (mfm_, updateError, update_V, move, update_A),
--                      Controller (update, cameraEvent, c_main).
--   Parallel           parallel/network.c and parallel/BallController.c: Motion (average_params,
--                      compute_speed, normalizeBallParams, the reward) and Activity (init_MFM, IF, sigma_x,
--                      sigma_y, noise) one assignment after the other, Messages (the bit fields of the
--                      packets), Population (mfm_, update_V, update_A of a node), Node (rec_err, send_upd,
--                      eventNode), Master (rec_upd, updateError, move, send_err, update, eventMaster),
--                      Start (init_network, save_, c_main), Board (all cores together: any order of
--                      callbacks in Safety, the routes of the packets in Routing, the updates
--                      of many nodes in Gather, one round of all nodes in Tick, and in Rounds many ticks
--                      with the camera's events between the answers, against a specification).
--   Agreement          the two versions side by side: learning, errors, centres, spin1_math.c.
--   MeanField          doc/spiNNaker/runMFM.c: one core, its start in Main, and in Cluster all cores of
--                      a chip with their packets in any order; Cluster/Net is the network that they
--                      make up, with rounds of ticks and packets, the positions of the ball and the
--                      motor commands.
--   PlotTracker        tests/data_plotters/tracker.c: the position filter, the speed and the acceleration
--                      for the plots.
--   Sinus              tests/sinus/: a motor that follows a sine.
--   SpeedTest          tests/speed_test/speed_test.c: the messages of a test of the chips.
--   Prelude            shared helpers: tests, lists, bits, loops, integers.
--   Tests              the theorems with hypotheses at concrete inputs.
--
-- State is a record of the globals a component uses; a C function is a function from the state before
-- to the state after, with its effects. An `unsigned int` is a natural number with its wrap-around
-- written out, an `int` an integer. A `float` is a number of the platform that `single` has rounded;
-- the laws of the platform hold of IEEE 754 arithmetic, NaN included. A loop of C is for_each on the
-- rounds left, so that every loop ends and no fuel is needed.
--
-- A write outside an array is `none` in rec_upd of the master and in process_mc_packet of runMFM.c; the
-- one that the sequential init_network makes below `center` falls on `n`, which lies there in
-- sequential/BallController.elf. C leaves the effect of that write open.
--
-- The callbacks of a board run in any order: Parallel/Board has a step for each, and a packet that was sent
-- may arrive late, again or never. How the routers of the chips choose an entry and where a link leads is
-- a parameter of Parallel/Board/Routing with the documented behaviour as laws, which Tests/Router fills.
--
-- Not modelled: the copy of musl, the plot scripts, hacks.c, the time that a callback takes, and the
-- numbers that are only printed.
pub mod Prelude
pub mod Platform
pub mod Calc
pub mod Track
pub mod Device
pub mod Network
pub mod Sequential
pub mod Parallel
pub mod Agreement
pub mod MeanField
pub mod PlotTracker
pub mod Sinus
pub mod SpeedTest
pub mod Tests

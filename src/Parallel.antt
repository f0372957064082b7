-- ===== src/Parallel.antt =====
-- The parallel version: one master core and a population on every other core, which exchange
-- multicast packets (parallel/network.c and parallel/BallController.c).
pub mod Globals
pub mod Messages
pub mod Population
pub mod Motion
pub mod Activity
pub mod Node
pub mod Master
pub mod Start
pub mod Board

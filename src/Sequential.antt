-- ===== src/Sequential.antt =====
-- The sequential version: the network of sequential/network.c and the controller of
-- sequential/BallController.c, all on one core.
pub mod Math
pub mod Globals
pub mod Sizes
pub mod Init
pub mod Learning
pub mod Controller

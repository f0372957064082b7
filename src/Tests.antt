-- ===== src/Tests.antt =====
-- Each theorem with hypotheses, applied at a concrete input on the platform of Platform/Fixed.
mod Data
mod Nodes
mod Router
mod Board
mod Stops
mod Plots
mod Round
mod Rounds
mod Gather
mod Cluster
mod Filter
mod Messages
mod Network
mod Machines
mod Rates
mod Counts

-- ===== src/Helpers.antt =====
-- The computations of domain/_helpers.py on pool topologies, on graphs of the
-- reporting service, and on what a system says of itself.
pub mod Topology
pub mod System
pub mod Netdata
pub mod Names

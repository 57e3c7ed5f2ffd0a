-- ===== src/System.antt =====
-- The typed access to system data (system.py): the graphs of `get_system_stats` and their failures.
pub mod Models
pub mod Graphs
pub mod Fields
pub mod Info
pub mod Interfaces
pub mod Series
pub mod Stats

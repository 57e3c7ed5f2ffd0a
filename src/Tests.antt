-- ===== src/Tests.antt =====
-- Runs of the modelled code at concrete inputs, and the theorems applied there.
pub mod Data
pub mod Normalizing
pub mod Connections
pub mod Helping
pub mod Systems
pub mod Opening
pub mod Subscribing
pub mod Caching
pub mod Alerting

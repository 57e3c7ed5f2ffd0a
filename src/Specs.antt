-- ===== src/Specs.antt =====
-- The tables of domain/_specs.py, which say how each endpoint is normalized.
pub mod Shape
pub mod Storage
pub mod Tasks
pub mod Services
pub mod System

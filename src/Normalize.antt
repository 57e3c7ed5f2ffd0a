-- ===== src/Normalize.antt =====
-- src/aiotruenas/domain/_normalize.py: the engine that maps raw API payloads to normalized dicts,
-- driven by tables of field specifications. Each child models a group of its functions.
pub mod Spec
pub mod Read
pub mod Fill
pub mod Uid
pub mod Parse

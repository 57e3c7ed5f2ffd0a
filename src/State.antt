-- ===== src/State.antt =====
-- `TrueNASState` (domain/state.py): the cached endpoints and their refreshes.
pub mod Cache
pub mod Fallback
pub mod Entries
pub mod Endpoints
pub mod Pool
pub mod Alerts
pub mod Smb
pub mod Update
pub mod Directory
pub mod Ups
pub mod Disks
pub mod Info
pub mod Stats
pub mod Containers
pub mod Initial
pub mod Kept
pub mod Recovery

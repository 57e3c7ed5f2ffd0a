-- ===== src/Client.antt =====
-- src/aiotruenas/client.py: the JSON-RPC client. Each method is cut where it awaits; a part that runs
-- without a suspension (under `self._lock`, or between two awaits) is one function on the state.
pub mod State
pub mod Connection
pub mod Messages
pub mod Reader
pub mod Handshake
pub mod Calls
pub mod Subscriptions
pub mod Job
pub mod Requests
pub mod Options
pub mod Invariant
pub mod Steps
